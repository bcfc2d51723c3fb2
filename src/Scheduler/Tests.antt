-- ===== src/Scheduler/Tests.antt =====
-- A scheduler with an idle thread and three others, and the theorems at it.
use ded_os.Base.{
  ℕ, ◌+◌, ◌≡◌, refl, ◌⊎◌, inl, true, false, some, List, [], ◌∷◌, arith, ◌==◌, if◌then◌else◌,
}
use ded_os.Base.Memory.{update}
use ded_os.Scheduler.Thread.{Registers, Thread, ThreadState, ready, running, blocked, Sched}
use ded_os.Scheduler.Tick.{timer_interrupt, thread_exit, scheduler_tick_irq}
use ded_os.Scheduler.Chain.{
  IsChain, has, wake_all, alive, destroyed, first_ready, without_first_ready,
}
use ded_os.Scheduler.Model.{View, view}
use ded_os.Scheduler.Model
use ded_os.Scheduler.Shows.{Shows}
use ded_os.Scheduler.Sound.{Queued}
use ded_os.Scheduler.Refine.{Ends, scheduler_tick_irq-refines}
use ded_os.Scheduler.System.{
  Event, interrupted, exited, slept, added, locked, unlocked, steps, model_step, model_steps,
  AllAllowed, IsNew, StepEnds, steps-refines,
}
use ded_os.Scheduler.Process.{Processes, process_dead, process_running}
use ded_os.Scheduler.Boot.{scheduler_init, started, scheduler_init-steps}
use ded_os.Scheduler.Leak.{Calm, waits}
use ded_os.Scheduler.Keep.{Lives}
use ded_os.Scheduler.Starve.{Duel}
use ded_os.Scheduler.Resume.{Away}
use ded_os.Scheduler.Starve.{run}
use ded_os.Scheduler.Machine.{
  interrupts, steps-frees_nothing, thread_exit-leaves, steps-starves, scheduler_tick_irq-keeps,
  timer_interrupt-resumes,
}

abbrev regs : ℕ → Registers
regs n = record {
  r15 = n;
  r14 = n;
  r13 = n;
  r12 = n;
  r11 = n;
  r10 = n;
  r9 = n;
  r8 = n;
  rbp = n;
  rdi = n;
  rsi = n;
  rdx = n;
  rcx = n;
  rbx = n;
  rax = n;
  vector = 32;
  error_code = 0;
  rip = n;
  cs = 8;
  rflags = 514;
  rsp = n;
  ss = 16;
}

abbrev thread : ℕ → ThreadState → ℕ → ℕ → Thread
thread id state wake_tick next = record {
  id = id;
  state = state;
  context = regs id;
  stack = 1000 + id;
  wake_tick = wake_tick;
  quantum = 1;
  kernel_stack_top = 2000 + id;
  process = 0;
  next = next;
}

-- 1 is the idle thread; 2 runs; 3 is ready, and 4 sleeps until tick 9.
abbrev threads : ℕ → Thread
threads a =
    if a == 2
    then thread 2 running 0 0
    else if a == 3
    then thread 3 ready 0 4
    else if a == 4
    then thread 4 blocked 9 0
    else thread a ready 0 0

abbrev sched : Sched
sched = record {
  run_queue = 3;
  current = 2;
  locked = false;
  idle = 1;
  timer_ticks = 5;
  tss_rsp0 = 0;
  freed = [];
  threads = threads;
}

abbrev shown : View
shown = view sched (3 ∷ 4 ∷ [])

shown-Shows : Shows sched shown
shown-Shows = record { chain = (refl, omega arith, (refl, omega arith, refl)); rest = refl }

shown-Queued : Queued shown
shown-Queued = record {
  once = (refl, (refl, tt));
  not_current = refl;
  not_idle = refl;
  not_null = refl;
  current_some = omega arith;
  idle_some = omega arith;
}

shown-Calm : Calm [] shown
shown-Calm = record { waiting = waits_in; kept = refl }
  where
    waits_in : (a : ℕ) → has a (3 ∷ 4 ∷ []) ≡ true → waits (shown.threads a).state ≡ true
    waits_in a h = ground arith

shown-Lives : Lives 4 shown
shown-Lives = record {
  there = refl;
  live = refl;
  not_idle = omega arith;
  some_thread = omega arith;
}

shown-Duel : Duel 2 3 shown
shown-Duel = record {
  runs = refl;
  running_x = refl;
  ready_y = refl;
  behind = 4 ∷ [];
  queue = refl;
  differ = omega arith;
  not_idle_x = omega arith;
  not_idle_y = omega arith;
  some_x = omega arith;
  some_y = omega arith;
  out_x = refl;
  out_y = refl;
}

scheduler_tick_irq-refines_example :
    Ends (scheduler_tick_irq 3 (regs 70) sched) (Model.tick (regs 70) shown)
scheduler_tick_irq-refines_example =
    scheduler_tick_irq-refines 3 (regs 70) shown-Shows shown-Queued (omega arith)

-- The running thread sleeps, a thread is added, and the next one exits.
abbrev history : List Event
history =
    slept 20 (regs 70)
    ∷ interrupted (regs 71)
    ∷ added 6 (thread 6 ready 0 0)
    ∷ locked
    ∷ unlocked
    ∷ exited (regs 72)
    ∷ []

history-allowed : AllAllowed history shown
unfolding update wake_all alive destroyed first_ready without_first_ready Model.wake Model.reap
    Model.charge Model.set_current Model.requeue Model.leave Model.enter Model.chosen Model.switch
    Model.tick Model.charge_or_switch Model.interrupt Model.yield Model.sleep model_step
history-allowed = (tt, (tt, (is_new, (tt, (tt, (tt, tt))))))
  where
    is_new :
        IsNew 6
          (thread 6 ready 0 0)
          (model_step (interrupted (regs 71)) (model_step (slept 20 (regs 70)) shown))
    is_new = record {
      is_ready = refl;
      not_null = omega arith;
      not_queued = refl;
      not_current = omega arith;
      not_idle = omega arith;
    }

steps-refines_example :
    StepEnds (steps 9 history sched) (model_steps history shown)
    × Queued (model_steps history shown)
steps-refines_example =
    steps-refines 9 history history-allowed shown-Shows shown-Queued (omega arith)

steps-frees_nothing_example : (s' : Sched) × (steps 9 history sched ≡ some s') × (s'.freed ≡ [])
steps-frees_nothing_example =
    steps-frees_nothing 9 history history-allowed shown-Shows shown-Queued shown-Calm (omega arith)

thread_exit-leaves_example :
    (s' : Sched) × (frame' : Registers) × (queue : List ℕ) × (thread_exit 3 (regs 70) sched
      ≡ some (s', frame'))
    × IsChain s'.threads s'.run_queue queue
    × (has 2 (s'.current ∷ queue) ≡ false)
    × (s'.freed ≡ [])
thread_exit-leaves_example =
    thread_exit-leaves 3 (regs 70) shown-Shows shown-Queued shown-Calm refl (omega arith)
      (omega arith)

steps-starves_example :
    (s' : Sched) × (steps 6 (interrupts (regs 70 ∷ regs 71 ∷ regs 72 ∷ [])) sched ≡ some s')
    × ((s'.current ≡ 2) ⊎ (s'.current ≡ 3))
steps-starves_example =
    steps-starves 6 (regs 70 ∷ regs 71 ∷ regs 72 ∷ []) shown-Shows shown-Queued (inl shown-Duel)
      (omega arith)

scheduler_tick_irq-keeps_example :
    (s' : Sched) × (frame' : Registers) × (queue : List ℕ) × (scheduler_tick_irq 3 (regs 70) sched
      ≡ some (s', frame'))
    × IsChain s'.threads s'.run_queue queue
    × (has 4 (s'.current ∷ queue) ≡ true)
scheduler_tick_irq-keeps_example =
    scheduler_tick_irq-keeps 3 (regs 70) shown-Shows shown-Queued shown-Lives (omega arith)

-- The thread loses the processor to thread 3, and takes it back ten ticks later.
abbrev between : List Registers
between =
    regs 71 ∷ regs 72 ∷ regs 73 ∷ regs 74 ∷ regs 75 ∷ regs 76 ∷ regs 77 ∷ regs 78 ∷ regs 79 ∷ []

away : Away 2 between (Model.interrupt (regs 70) shown).0
unfolding update wake_all alive destroyed first_ready without_first_ready Model.wake Model.reap
    Model.charge Model.set_current Model.requeue Model.leave Model.enter Model.chosen Model.switch
    Model.tick Model.charge_or_switch Model.interrupt
away = (
  omega arith,
  (
    omega arith,
    (
      omega arith,
      (
        omega arith,
        (omega arith, (omega arith, (omega arith, (omega arith, (omega arith, omega arith))))),
      ),
    ),
  ),
)

comes_back : (Model.interrupt (regs 80) (run (regs 70 ∷ between) shown)).0.current ≡ 2
unfolding update wake_all alive destroyed first_ready without_first_ready Model.wake Model.reap
    Model.charge Model.set_current Model.requeue Model.leave Model.enter Model.chosen Model.switch
    Model.tick Model.charge_or_switch Model.interrupt run
comes_back = refl

timer_interrupt-resumes_example :
    (s1 : Sched) × (s2 : Sched) × (frame' : Registers) × (steps 13
        (interrupts (regs 70 ∷ between))
        sched
      ≡ some s1)
    × (timer_interrupt 13 (regs 80) s1 ≡ some (s2, frame'))
    × (s2.current ≡ 2)
    × (frame' ≡ record (regs 70) { vector = 32; error_code = 0 })
timer_interrupt-resumes_example =
    timer_interrupt-resumes 13 (regs 70) between (regs 80) shown-Shows shown-Queued (omega arith)
      away comes_back (omega arith)

-- Before `scheduler_init`: no thread is queued, and none runs.
abbrev unset : Sched
unset = record sched { run_queue = 0; current = 0 }

abbrev no_processes : Processes ℕ
no_processes = record {
  heap = 0;
  next_pid = 1;
  processes = λ a. record { pid = 7; state = process_dead; name = λ i. 0; next = 0 };
}

abbrev first_ticks : List Event
first_ticks = interrupted (regs 70) ∷ locked ∷ interrupted (regs 71) ∷ []

scheduler_init-steps_example :
    let (p', s') = scheduler_init 8000 9000 7000 (no_processes, unset) in
    ((p'.processes 7000).pid ≡ 0)
    × ((p'.processes 7000).state ≡ process_running)
    × StepEnds (steps 9 first_ticks s') (model_steps first_ticks (started 8000 9000 7000 unset))
    × Queued (model_steps first_ticks (started 8000 9000 7000 unset))
scheduler_init-steps_example =
    scheduler_init-steps 8000 9000 7000 no_processes unset 9 first_ticks refl (omega arith)
      (tt, (tt, (tt, tt))) (omega arith)
