-- ===== src/Arch/Isr/Apart.antt =====
-- Interrupts of the timer, the keyboard and other devices one after the other, in any order, through
-- `isr_handler` of kernel/src/arch/x86_64/isr.c: what each part of the kernel sees of them.
use mathlib.Core.Path.{subst}
use ded_os.Base.{
  ℕ, zero, suc, ◌+◌, ◌-◌, ◌%◌, ◌<◌, ◌≤◌, ◌≡◌, ap, inl, inr, true, false, Option, none, some, List,
  [], ◌∷◌, arith, All, ltb, ◌==◌, Bool-cases, if◌then◌else◌, if_true, if_false, length,
}
use ded_os.Base.Partial.{◌>>=◌}
use ded_os.Scheduler.Thread.{Registers, Sched}
use ded_os.Scheduler.Tick.{timer_interrupt}
use ded_os.Scheduler.Model.{View}
use ded_os.Scheduler.Shows.{Shows}
use ded_os.Scheduler.Sound.{Queued}
use ded_os.Scheduler.System.{step, steps, model_steps, steps-refines}
use ded_os.Scheduler.Machine.{interrupts, interrupts-allowed, length-interrupts}
use ded_os.Drivers.Keyboard.{keyboard_handler}
use ded_os.Drivers.Keyboard.Typing.{handle_all}
use ded_os.Arch.Isr.{Cpu, Handled, returned, halted, isr_handler}

-- The frame of an interrupt, and what port 0x60 holds then.
abbrev pub Interrupt : Type 0
Interrupt = Registers × ℕ

abbrev pub IsHardware : Interrupt → Type 0
IsHardware i = (32 ≤ i.0.vector) × (i.0.vector < 256)

-- The frames of the timer, and the scancodes of the keyboard.
unfoldable pub timer_frames : List Interrupt → List Registers
timer_frames [] = []
timer_frames ((frame, scancode) ∷ is) =
    let rest = timer_frames is in if frame.vector == 32 then frame ∷ rest else rest

unfoldable pub scancodes : List Interrupt → List ℕ
scancodes [] = []
scancodes ((frame, scancode) ∷ is) =
    let rest = scancodes is in if frame.vector == 33 then scancode ∷ rest else rest

length-timer_frames : (is : List Interrupt) → length (timer_frames is) ≤ length is
unfolding timer_frames
length-timer_frames [] = omega arith
length-timer_frames ((frame, scancode) ∷ is) = elim (Bool-cases (frame.vector == 32)) [
  | inl timer ↦ rw timer (omega (arith, length-timer_frames is))
  | inr no_timer ↦ rw no_timer (omega (arith, length-timer_frames is))
]

unfoldable pub repeat {ℓ} : {A : Type ℓ} → ℕ → (A → A) → A → A
repeat zero f a = a
repeat (suc n) f a = repeat n f (f a)

module _ {D : Type 0} (lapic_eoi : D → D) where
  -- The processor after the interrupts, if none of them stops it.
  unfoldable pub handle : ℕ → List Interrupt → Cpu D → Option (Cpu D)
  handle k [] c = some c
  handle k ((frame, scancode) ∷ is) c =
      isr_handler lapic_eoi k scancode frame c
      >>= (λ r. elim r [ returned c' frame' ↦ handle k is c' | halted ↦ none ])

  -- The parts after the interrupts, with the scheduler in the state `s`.
  abbrev pub parts : List Interrupt → Cpu D → Sched → Cpu D
  parts is c s = record {
    sched = s;
    keyboard = handle_all (scancodes is) c.keyboard;
    device = repeat (length is) lapic_eoi c.device;
  }

  -- What `handle` does with what `isr_handler` returned.
  abbrev after : ℕ → List Interrupt → Option (Handled D) → Option (Cpu D)
  after k is r = r >>= (λ h. elim h [ returned c' frame' ↦ handle k is c' | halted ↦ none ])

  -- The rest of a history, from any state of the processor.
  abbrev Rest : ℕ → List Interrupt → Sched → Type 0
  Rest k is s =
      (c : Cpu D)
      → steps k (interrupts (timer_frames is)) c.sched ≡ some s
      → handle k is c ≡ some (parts is c s)

  by_timer :
      (k : ℕ) (is : List Interrupt) (c : Cpu D) (s : Sched)
      → Rest k is s
      → (r : Option (Sched × Registers))
      → (r >>= (λ (x : Sched × Registers). some x.0)) >>= steps k (interrupts (timer_frames is))
        ≡ some s
      → after k is (
          r >>= (λ (x : Sched × Registers).
            some (returned (record c { sched = x.0; device = lapic_eoi c.device }) x.1)))
        ≡ some (parts is (record c { device = lapic_eoi c.device }) s)
  by_timer k is c s rest none e = cc
  by_timer k is c s rest (some (s', frame')) e =
      rest (record c { sched = s'; device = lapic_eoi c.device }) e

  handle-parts :
      (k : ℕ) (is : List Interrupt) (c : Cpu D) (s : Sched)
      → All IsHardware is
      → steps k (interrupts (timer_frames is)) c.sched ≡ some s
      → handle k is c ≡ some (parts is c s)
  unfolding handle isr_handler timer_frames scancodes steps step handle_all repeat
  handle-parts k [] c s ok runs = ap (λ (r : Option Sched). r >>= (λ s. some (parts [] c s))) runs
  handle-parts k ((frame, scancode) ∷ is) c s ((lo, hi), ok) runs =
      let rest : Rest k is s = λ c' e. handle-parts k is c' s ok e in
      let seen : (frame.vector == 32) ≡ true
          → steps k (interrupts (frame ∷ timer_frames is)) c.sched ≡ some s =
        λ e.
          subst (λ fs. steps k (interrupts fs) c.sched ≡ some s)
            (if_true (frame.vector == 32) (frame ∷ timer_frames is) (timer_frames is) e) runs in
      let unseen : (frame.vector == 32) ≡ false
          → steps k (interrupts (timer_frames is)) c.sched ≡ some s =
        λ e.
          subst (λ fs. steps k (interrupts fs) c.sched ≡ some s)
            (if_false (frame.vector == 32) (frame ∷ timer_frames is) (timer_frames is) e) runs in
      let no_exception : ltb frame.vector 32 ≡ false = ground arith in
      elim (Bool-cases (frame.vector == 32)) [
        | inl timer ↦
            let irq : ((frame.vector - 32) % 256 == 0) ≡ true = ground (arith, timer) in
            let no_key : (frame.vector == 33) ≡ false = ground (arith, timer) in
            rw (no_exception, irq, no_key)
              (by_timer k is c s rest (timer_interrupt k frame c.sched) (seen timer))
        | inr no_timer ↦
            let irq : ((frame.vector - 32) % 256 == 0) ≡ false = ground (arith, no_timer) in
            elim (Bool-cases (frame.vector == 33)) [
              | inl key ↦
                  let irq_key : ((frame.vector - 32) % 256 == 1) ≡ true = ground (arith, key) in
                  let device = lapic_eoi c.device in
                  rw (no_exception, irq, irq_key, key)
                    (rest
                      (record c {
                        keyboard = keyboard_handler scancode c.keyboard;
                        device = device;
                      })
                      (unseen no_timer))
              | inr no_key ↦
                  let irq_key : ((frame.vector - 32) % 256 == 1) ≡ false = ground (arith, no_key) in
                  rw (no_exception, irq, irq_key, no_key)
                    (rest (record c { device = lapic_eoi c.device }) (unseen no_timer))
            ]
      ]

  -- From a scheduler that shows `v`, whose queue keeps the invariant, and with fuel for its threads and the
  -- interrupts, every series of hardware interrupts is handled to its end. The scheduler sees the frames of
  -- the timer interrupts only, and shows what the model makes of them; the keyboard handler sees the
  -- scancodes of the keyboard interrupts only, in their order; and the local controller is told of the end
  -- of each interrupt, once.
  pub handle-refines :
      (k : ℕ) (is : List Interrupt) (c : Cpu D) {v : View}
      → All IsHardware is
      → Shows c.sched v
      → Queued v
      → length v.queue + length is < k
      → (s : Sched) × (handle k is c ≡ some (parts is c s))
        × Shows s (model_steps (interrupts (timer_frames is)) v)
  handle-refines k is c {v} ok shows queued enough =
      let (s, runs, shown) =
        (steps-refines k (interrupts (timer_frames is)) (interrupts-allowed (timer_frames is) v)
          shows queued
          (omega (arith, length-timer_frames is, length-interrupts (timer_frames is)))).0 in
      (s, handle-parts k is c s ok runs, shown)
