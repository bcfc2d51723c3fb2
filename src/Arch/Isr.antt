-- ===== src/Arch/Isr.antt =====
-- `isr_handler` of kernel/src/arch/x86_64/isr.c. The end of interrupt at the local controller, and what
-- port 0x60 gives to the keyboard, are parameters. Messages are left out.
pub mod Apart
mod Tests
use ded_os.Base.{ℕ, ◌-◌, ◌%◌, Option, none, some, ltb, ◌==◌, if◌then◌else◌}
use ded_os.Base.Partial.{◌>>=◌}
use ded_os.Scheduler.Thread.{Registers, Sched}
use ded_os.Scheduler.Tick.{timer_interrupt}
use ded_os.Drivers.Keyboard.{Keyboard, keyboard_handler}

-- The parts of the kernel that an interrupt reaches, and the device.
pub record Cpu (D : Type 0) : Type 0 where
  pub sched : Sched
  pub keyboard : Keyboard
  pub device : D

-- An exception stops the processor: `cli; hlt`.
pub data Handled (D : Type 0) : Type 0 where
  returned : Cpu D → Registers → Handled D
  halted : Handled D

module _ {D : Type 0} (lapic_eoi : D → D) where
  -- The scheduler's walks take fuel.
  unfoldable pub isr_handler : ℕ → ℕ → Registers → Cpu D → Option (Handled D)
  isr_handler fuel scancode frame c =
      let irq = (frame.vector - 32) % 256 in
      let device = lapic_eoi c.device in
      let ticked = timer_interrupt fuel frame c.sched >>= (λ (r : Sched × Registers).
        some (returned (record c { sched = r.0; device = device }) r.1)) in
      let typed = record c { keyboard = keyboard_handler scancode c.keyboard; device = device } in
      if ltb frame.vector 32
      then some halted
      else if irq == 0
      then ticked
      else if irq == 1
      then some (returned typed frame)
      else some (returned (record c { device = device }) frame)
