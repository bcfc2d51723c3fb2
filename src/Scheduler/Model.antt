-- ===== src/Scheduler/Model.antt =====
-- The scheduler over a list: what `scheduler_tick_irq` and its callers promise, with the run queue
-- as a list of threads and no links. It is independent of how the queue is stored.
use ded_os.Base.{ℕ, ◌-◌, Bool, List, ◌∷◌, ◌++◌, ltb, ◌==◌, if◌then◌else◌}
use ded_os.Base.Word.{add64}
use ded_os.Base.Memory.{update}
use ded_os.Scheduler.Thread.{
  Registers, Thread, ready, running, blocked, dead, Sched, scheduler_quantum,
}
use ded_os.Scheduler.Tick.{save_context, load_frame}
use ded_os.Scheduler.Chain.{body, wake_all, alive, destroyed, first_ready, without_first_ready}

pub record View : Type 0 where
  pub queue : List ℕ
  pub current : ℕ
  pub locked : Bool
  pub idle : ℕ
  pub timer_ticks : ℕ
  pub tss_rsp0 : ℕ
  pub freed : List ℕ
  pub threads : ℕ → Thread

-- What the state `s` shows when its run queue stands for `q`.
abbrev pub view : Sched → List ℕ → View
view s q = record {
  queue = q;
  current = s.current;
  locked = s.locked;
  idle = s.idle;
  timer_ticks = s.timer_ticks;
  tss_rsp0 = s.tss_rsp0;
  freed = s.freed;
  threads = λ a. body (s.threads a);
}

abbrev pub Outcome : Type 0
Outcome = View × Registers

unfoldable pub wake : View → View
wake v = record v { threads = wake_all v.timer_ticks v.queue v.threads }

unfoldable pub reap : View → View
reap v = record v {
  queue = alive v.threads v.queue;
  freed = v.freed ++ destroyed v.threads v.queue;
}

unfoldable pub charge : View → View
charge v =
    let t = v.threads v.current in
    if ltb 0 t.quantum
    then record v { threads = update v.threads v.current (record t { quantum = t.quantum - 1 }) }
    else v

-- The interrupted thread goes to the front of the queue.
unfoldable pub requeue : View → View
requeue v = elim (v.threads v.current).state [
  | running ↦ record v {
    queue = v.current ∷ v.queue;
    threads =
        update v.threads v.current
          (record (v.threads v.current) { state = ready; quantum = scheduler_quantum });
  }
  | ready ↦ record v { queue = v.current ∷ v.queue }
  | blocked ↦ record v { queue = v.current ∷ v.queue }
  | dead ↦ v
]

unfoldable pub set_current : (Thread → Thread) → View → View
set_current f v = record v { threads = update v.threads v.current (f (v.threads v.current)) }

unfoldable pub leave : Registers → View → View
leave frame v =
    if v.current == v.idle
    then v
    else set_current (λ t. record t { context = save_context t.context frame }) (requeue v)

unfoldable pub enter : ℕ → View → View
enter next v =
    let t = record (v.threads next) { state = running; quantum = scheduler_quantum } in
    record v {
      threads = update v.threads next t;
      current = next;
      tss_rsp0 = if t.context.cs == 0x1B then t.kernel_stack_top else v.tss_rsp0;
    }

-- Who runs next: the first ready thread of the queue, else the idle thread.
unfoldable pub chosen : View → ℕ
chosen v = let next = first_ready v.threads v.queue in if next == 0 then v.idle else next

unfoldable pub switch : Registers → View → Outcome
switch frame v =
    let next = chosen v in
    let rest = record v { queue = without_first_ready v.threads v.queue } in
    let v' = enter next (leave frame rest) in (v', load_frame frame (v'.threads next).context)

unfoldable pub charge_or_switch : Registers → View → Outcome
charge_or_switch frame v =
    let v' = charge v in
    if ltb 0 (v'.threads v'.current).quantum then (v', frame) else switch frame v'

unfoldable pub tick : Registers → View → Outcome
tick frame v = if v.locked then (v, frame) else charge_or_switch frame (reap (wake v))

unfoldable pub interrupt : Registers → View → Outcome
interrupt frame v = tick frame (record v { timer_ticks = add64 v.timer_ticks 1 })

-- What a call that gives the processor up first does to its own thread.
abbrev pub give_up : Thread → Thread
give_up t = record t { quantum = 0 }

abbrev pub die : Thread → Thread
die t = record t { state = dead }

abbrev pub doze : ℕ → Thread → Thread
doze until t = record t { state = blocked; wake_tick = until }

unfoldable pub yield : Registers → View → Outcome
yield frame v = interrupt frame (set_current give_up v)

unfoldable pub exit : Registers → View → Outcome
exit frame v = yield frame (set_current die v)

unfoldable pub sleep : ℕ → Registers → View → Outcome
sleep ms frame v = yield frame (set_current (doze (add64 v.timer_ticks ms)) v)
