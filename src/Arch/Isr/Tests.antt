-- ===== src/Arch/Isr/Tests.antt =====
-- The timer, a key and an unused line, on a scheduler with the idle thread alone.
use ded_os.Base.{ℕ, ◌+◌, ◌≡◌, refl, false, some, List, [], ◌∷◌, arith, All}
use ded_os.Scheduler.Thread.{Registers, Sched}
use ded_os.Scheduler.Create.{no_registers, no_thread}
use ded_os.Scheduler.Model.{view}
use ded_os.Scheduler.Shows.{Shows}
use ded_os.Scheduler.Sound.{Queued}
use ded_os.Scheduler.System.{model_steps}
use ded_os.Scheduler.Machine.{interrupts}
use ded_os.Arch.Isr.{Cpu}
use ded_os.Arch.Isr.Apart.{
  Interrupt, IsHardware, handle, parts, timer_frames, scancodes, handle-refines,
}

abbrev vector : ℕ → Registers
vector n = record no_registers { vector = n }

abbrev series : List Interrupt
series = (vector 33, 0x1E) ∷ (vector 32, 0) ∷ (vector 40, 0) ∷ []

series-AreHardware : All IsHardware series
series-AreHardware =
    ((omega arith, omega arith), ((omega arith, omega arith), ((omega arith, omega arith), tt)))

scancodes_of_series : scancodes series ≡ 0x1E ∷ []
unfolding scancodes
scancodes_of_series = refl

-- The device counts.
abbrev cpu : Cpu ℕ
cpu = record {
  sched = record {
    run_queue = 0;
    current = 1;
    locked = false;
    idle = 1;
    timer_ticks = 0;
    tss_rsp0 = 0;
    freed = [];
    threads = λ a. no_thread;
  };
  keyboard = record {
    keyboard_buffer = λ i. 0;
    buf_head = 0;
    buf_tail = 0;
    shift_pressed = false;
    caps_lock = false;
  };
  device = 0;
}

idle-Queued : Queued (view cpu.sched [])
idle-Queued = record {
  once = tt;
  not_current = refl;
  not_idle = refl;
  not_null = refl;
  current_some = omega arith;
  idle_some = omega arith;
}

handle-refines_example :
    (s : Sched) × (handle (λ n. n + 1) 4 series cpu ≡ some (parts (λ n. n + 1) series cpu s))
    × Shows s (model_steps (interrupts (timer_frames series)) (view cpu.sched []))
handle-refines_example =
    handle-refines (λ n. n + 1) 4 series cpu series-AreHardware
      (record { chain = refl; rest = refl }) idle-Queued (omega arith)
