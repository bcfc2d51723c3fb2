-- ===== src/Scheduler/Boot.antt =====
-- `scheduler_init` of kernel/src/scheduler/scheduler.c. The stack pointer that it reads, and the addresses
-- of `idle_fn` and of the static `idle_process`, are parameters.
use mathlib.Core.Path.{fun_ext}
use ded_os.Base.{
  ℕ, ◌<◌, ◌-◌, ◌+◌, ◌^◌, ◌==◌, ap, inl, inr, Bool-cases, if◌then◌else◌, ◌≡◌, refl, ◌≢◌, List, [],
  arith, length,
}
use ded_os.Base.Word.{u64_max}
use ded_os.Base.Memory.{update, update_self}
use ded_os.Scheduler.Thread.{Registers, Sched, Thread, ready, scheduler_quantum}
use ded_os.Scheduler.Loops.{set_thread}
use ded_os.Scheduler.Process.{Process, Processes, process_running}
use ded_os.Scheduler.Model.{View}
use ded_os.Scheduler.Chain.{body}
use ded_os.Scheduler.Shows.{Shows}
use ded_os.Scheduler.Sound.{Queued}
use ded_os.Scheduler.System.{Event, AllAllowed, StepEnds, steps, model_steps, steps-refines}

-- The registers that are not set here keep what they hold.
abbrev pub idle_context : ℕ → ℕ → Registers → Registers
idle_context rsp idle_fn context = record context {
  rip = idle_fn;
  rsp = rsp;
  rbp = 0;
  rbx = 0;
  cs = 0x08;
  ss = 0x10;
  rflags = 0x202;
  r12 = 0;
  r13 = 0;
  r14 = 0;
  r15 = 0;
}

module _ {H : Type 0} (rsp idle_fn idle_process : ℕ) where
  unfoldable pub scheduler_init : Processes H × Sched → Processes H × Sched
  scheduler_init (p, s) =
      let process = record (p.processes idle_process) { pid = 0; state = process_running } in
      let idle_thread = record (s.threads s.idle) {
        id = u64_max;
        state = ready;
        process = idle_process;
        quantum = scheduler_quantum;
        next = 0;
        wake_tick = 0;
        context = idle_context rsp idle_fn (s.threads s.idle).context;
      } in
      (
        record p { processes = update p.processes idle_process process },
        record (set_thread s.idle idle_thread s) { current = s.idle },
      )
  -- The scheduler that has started: no thread is queued, and the current thread is the idle one, ready, with

-- a full quantum of ten ticks, the greatest identifier and a context that enters `idle_fn` in the kernel's
-- segments with interrupts on. Its stack block and the other threads are as they were.
unfoldable pub started : ℕ → ℕ → ℕ → Sched → View
started rsp idle_fn idle_process s = record {
  queue = [];
  current = s.idle;
  locked = s.locked;
  idle = s.idle;
  timer_ticks = s.timer_ticks;
  tss_rsp0 = s.tss_rsp0;
  freed = s.freed;
  threads = λ a. if a == s.idle then idle_thread else body (s.threads a);
}
  where
    idle_thread : Thread
    idle_thread = record {
      id = 2 ^ 64 - 1;
      state = ready;
      context = record {
        r15 = 0;
        r14 = 0;
        r13 = 0;
        r12 = 0;
        r11 = (s.threads s.idle).context.r11;
        r10 = (s.threads s.idle).context.r10;
        r9 = (s.threads s.idle).context.r9;
        r8 = (s.threads s.idle).context.r8;
        rbp = 0;
        rdi = (s.threads s.idle).context.rdi;
        rsi = (s.threads s.idle).context.rsi;
        rdx = (s.threads s.idle).context.rdx;
        rcx = (s.threads s.idle).context.rcx;
        rbx = 0;
        rax = (s.threads s.idle).context.rax;
        vector = (s.threads s.idle).context.vector;
        error_code = (s.threads s.idle).context.error_code;
        rip = idle_fn;
        cs = 8;
        rflags = 2 ^ 9 + 2;
        rsp = rsp;
        ss = 16;
      };
      stack = (s.threads s.idle).stack;
      wake_tick = 0;
      quantum = 10;
      kernel_stack_top = (s.threads s.idle).kernel_stack_top;
      process = idle_process;
      next = 0;
    }

module _ {H : Type 0} (rsp idle_fn idle_process : ℕ) where
  pub scheduler_init-Shows :
      (p : Processes H) (s : Sched)
      → s.run_queue ≡ 0
      → Shows
          (scheduler_init rsp idle_fn idle_process (p, s)).1
          (started rsp idle_fn idle_process s)
  unfolding scheduler_init started update
  scheduler_init-Shows p s empty = record {
    chain = empty;
    rest =
        ap (λ (t : ℕ → Thread). record (started rsp idle_fn idle_process s) { threads = t })
          (fun_ext λ a. elim (Bool-cases (a == s.idle)) [ inl e ↦ rw e | inr e ↦ rw e ]);
  }

  -- After `scheduler_init`, on a state with an empty run queue and the idle thread at an address other
  -- than 0, the idle process has the number 0 and runs, and every history of interrupts, yields, exits,
  -- sleeps, new threads and lock changes, in which only new threads are added, ends, with more fuel than
  -- it has events; it shows what the model's history makes of the scheduler that has started, whose idle
  -- thread is current, ready and has a full quantum. The invariant of the queue holds there.
  pub scheduler_init-steps :
      (p : Processes H) (s : Sched) (k : ℕ) (es : List Event)
      → s.run_queue ≡ 0
      → s.idle ≢ 0
      → AllAllowed es (started rsp idle_fn idle_process s)
      → length es < k
      → let (p', s') = scheduler_init rsp idle_fn idle_process (p, s) in
        ((p'.processes idle_process).pid ≡ 0)
        × ((p'.processes idle_process).state ≡ process_running)
        × StepEnds (steps k es s') (model_steps es (started rsp idle_fn idle_process s))
        × Queued (model_steps es (started rsp idle_fn idle_process s))
  unfolding scheduler_init started
  scheduler_init-steps p s k es empty some_idle ok enough = (
    ap (λ (q : Process). q.pid) (update_self p.processes idle_process _),
    ap (λ (q : Process). q.state) (update_self p.processes idle_process _),
    runs.0,
    runs.1,
  )
    where
      runs :
          StepEnds
            (steps k es (scheduler_init rsp idle_fn idle_process (p, s)).1)
            (model_steps es (started rsp idle_fn idle_process s))
          × Queued (model_steps es (started rsp idle_fn idle_process s))
      runs =
          steps-refines k es ok (scheduler_init-Shows p s empty)
            (record {
              once = tt;
              not_current = refl;
              not_idle = refl;
              not_null = refl;
              current_some = some_idle;
              idle_some = some_idle;
            })
            (omega (arith, enough))
