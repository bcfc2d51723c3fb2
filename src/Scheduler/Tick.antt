-- ===== src/Scheduler/Tick.antt =====
-- `scheduler_tick_irq` and the other operations of kernel/src/scheduler/scheduler.c, the calls of
-- kernel/src/scheduler/thread.c that give the processor up, and the timer interrupt of
-- kernel/src/arch/x86_64/isr.c. The interrupt frame goes in and comes out as a value.
use ded_os.Base.{ℕ, ◌-◌, true, false, ◌||◌, Option, some, ltb, ◌==◌, if◌then◌else◌}
use ded_os.Base.Word.{add64}
use ded_os.Base.Partial.{◌>>=◌}
use ded_os.Scheduler.Thread.{Registers, ready, running, blocked, dead, Sched, scheduler_quantum}
use ded_os.Scheduler.Loops.{set_thread, wake_loop, reap_loop, select_loop}

-- The registers of the frame are saved in the context of the thread that was interrupted.
unfoldable pub save_context : Registers → Registers → Registers
save_context context frame = record context {
  rip = frame.rip;
  rsp = frame.rsp;
  rbp = frame.rbp;
  cs = frame.cs;
  ss = frame.ss;
  rflags = frame.rflags;
  rax = frame.rax;
  rbx = frame.rbx;
  rcx = frame.rcx;
  rdx = frame.rdx;
  rsi = frame.rsi;
  rdi = frame.rdi;
  r8 = frame.r8;
  r9 = frame.r9;
  r10 = frame.r10;
  r11 = frame.r11;
  r12 = frame.r12;
  r13 = frame.r13;
  r14 = frame.r14;
  r15 = frame.r15;
}

-- The frame is loaded with the context of the thread that runs next.
unfoldable pub load_frame : Registers → Registers → Registers
load_frame frame context = record frame {
  rip = context.rip;
  rsp = context.rsp;
  rbp = context.rbp;
  rax = context.rax;
  rbx = context.rbx;
  rcx = context.rcx;
  rdx = context.rdx;
  rsi = context.rsi;
  rdi = context.rdi;
  ss = context.ss;
  cs = context.cs;
  rflags = context.rflags;
  r8 = context.r8;
  r9 = context.r9;
  r10 = context.r10;
  r11 = context.r11;
  r12 = context.r12;
  r13 = context.r13;
  r14 = context.r14;
  r15 = context.r15;
}

-- `current->quantum--`, unless it is 0.
unfoldable pub charge : Sched → Sched
charge s =
    let t = s.threads s.current in
    if ltb 0 t.quantum then set_thread s.current (record t { quantum = t.quantum - 1 }) s else s

-- The interrupted thread goes to the front of the queue, unless it is dead.
unfoldable pub push_current : Sched → Sched
push_current s =
    record (set_thread s.current (record (s.threads s.current) { next = s.run_queue }) s) {
      run_queue = s.current;
    }

unfoldable pub requeue : Sched → Sched
unfolding push_current
requeue s = elim (s.threads s.current).state [
  | running ↦ push_current (
      set_thread s.current
        (record (s.threads s.current) { state = ready; quantum = scheduler_quantum }) s)
  | ready ↦ push_current s
  | blocked ↦ push_current s
  | dead ↦ s
]

unfoldable pub save_current : Registers → Sched → Sched
save_current frame s =
    let t = s.threads s.current in
    set_thread s.current (record t { context = save_context t.context frame }) s

unfoldable pub leave : Registers → Sched → Sched
unfolding save_current
leave frame s = if s.current == s.idle then s else save_current frame (requeue s)

-- A user thread enters the kernel again on its own stack.
unfoldable pub enter : ℕ → Sched → Sched
enter next s =
    let t = record (s.threads next) { state = running; quantum = scheduler_quantum } in
    let s' = record (set_thread next t s) { current = next } in
    if t.context.cs == 0x1B then record s' { tss_rsp0 = t.kernel_stack_top } else s'

unfoldable pub switch_to : ℕ → Registers → Sched → Sched × Registers
switch_to next frame s =
    let s' = enter (if next == 0 then s.idle else next) (leave frame s) in
    (s', load_frame frame (s'.threads s'.current).context)

-- The first ready thread takes over, or the idle thread if there is none.
unfoldable pub dispatch : ℕ → Registers → Sched → Option (Sched × Registers)
dispatch fuel frame s = do
  (rest, next) ← select_loop fuel 0 s.run_queue s
  some (switch_to next frame rest)

-- One tick of the quantum of the current thread; when it is used up another takes over.
unfoldable pub charge_or_dispatch : ℕ → Registers → Sched → Option (Sched × Registers)
charge_or_dispatch fuel frame s =
    let charged = charge s in
    if ltb 0 (charged.threads charged.current).quantum
    then some (charged, frame)
    else dispatch fuel frame charged

unfoldable pub scheduler_tick_irq : ℕ → Registers → Sched → Option (Sched × Registers)
scheduler_tick_irq fuel frame s = if (s.current == 0) || s.locked then some (s, frame) else do
  awake ← wake_loop fuel s.run_queue s
  reaped ← reap_loop fuel 0 awake.run_queue awake
  charge_or_dispatch fuel frame reaped

unfoldable pub scheduler_lock : Sched → Sched
scheduler_lock s = record s { locked = true }

unfoldable pub scheduler_unlock : Sched → Sched
scheduler_unlock s = record s { locked = false }

unfoldable pub scheduler_add_thread : ℕ → Sched → Sched
scheduler_add_thread t s = record (set_thread t (record (s.threads t) { next = s.run_queue }) s) {
  run_queue = t;
}

-- The timer vector of `isr_handler`: one more tick, and the scheduler if it is set up.
unfoldable pub timer_interrupt : ℕ → Registers → Sched → Option (Sched × Registers)
timer_interrupt fuel frame s =
    let s' = record s { timer_ticks = add64 s.timer_ticks 1 } in
    if s'.current == 0 then some (s', frame) else scheduler_tick_irq fuel frame s'

-- `int $0x20` is the timer interrupt, with the frame that the processor pushes.
unfoldable pub scheduler_yield : ℕ → Registers → Sched → Option (Sched × Registers)
scheduler_yield fuel frame s = timer_interrupt fuel frame (
    if s.current == 0
    then s
    else set_thread s.current (record (s.threads s.current) { quantum = 0 }) s)

unfoldable pub thread_exit : ℕ → Registers → Sched → Option (Sched × Registers)
thread_exit fuel frame s =
    scheduler_yield fuel frame
      (set_thread s.current (record (s.threads s.current) { state = dead }) s)

unfoldable pub thread_sleep : ℕ → ℕ → Registers → Sched → Option (Sched × Registers)
thread_sleep ms fuel frame s = scheduler_yield fuel frame (
    set_thread s.current
      (record (s.threads s.current) { state = blocked; wake_tick = add64 s.timer_ticks ms }) s)
