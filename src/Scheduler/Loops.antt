-- ===== src/Scheduler/Loops.antt =====
-- The three walks over the run queue in `scheduler_tick_irq`, kernel/src/scheduler/scheduler.c, and
-- `thread_destroy`. Each walk takes fuel and is `none` when that runs out.
use ded_os.Base.{
  ℕ, zero, suc, Bool, true, false, ◌&&◌, Option, none, some, [], ◌∷◌, ◌++◌, leb, ◌==◌,
  if◌then◌else◌,
}
use ded_os.Base.Memory.{update}
use ded_os.Scheduler.Thread.{Thread, ThreadState, ready, blocked, dead, Sched}

abbrev pub is_ready : ThreadState → Bool
is_ready ready = true
is_ready _ = false

abbrev pub is_blocked : ThreadState → Bool
is_blocked blocked = true
is_blocked _ = false

abbrev pub is_dead : ThreadState → Bool
is_dead dead = true
is_dead _ = false

-- A blocked thread whose time has come is ready.
abbrev pub woken : ℕ → Thread → Thread
woken now t = if is_blocked t.state && leb t.wake_tick now then record t { state = ready } else t

-- `t->next = q` and `*t = v`.
abbrev pub set_thread : ℕ → Thread → Sched → Sched
set_thread t v s = record s { threads = update s.threads t v }

abbrev pub set_next : ℕ → ℕ → Sched → Sched
set_next t q s = set_thread t (record (s.threads t) { next = q }) s

unfoldable pub wake_loop : ℕ → ℕ → Sched → Option Sched
wake_loop zero t s = none
wake_loop (suc k) t s =
    let s' = set_thread t (woken s.timer_ticks (s.threads t)) s in
    elim (t == 0) [ true ↦ some s | false ↦ wake_loop k (s'.threads t).next s' ]

-- Takes out of the queue what stands behind `prev` (or first, if `prev` is NULL).
unfoldable pub unlink : ℕ → ℕ → Sched → Sched
unlink prev next s = if prev == 0 then record s { run_queue = next } else set_next prev next s

-- The stack and the thread go back to the heap.
unfoldable pub thread_destroy : ℕ → Sched → Sched
thread_destroy t s =
    if t == 0 then s else record s { freed = s.freed ++ ((s.threads t).stack ∷ t ∷ []) }

unfoldable pub reap_loop : ℕ → ℕ → ℕ → Sched → Option Sched
reap_loop zero prev t s = none
reap_loop (suc k) prev t s =
    let next = (s.threads t).next in
    elim (t == 0) [
      | true ↦ some s
      | false ↦ elim (is_dead (s.threads t).state) [
        | true ↦ reap_loop k prev next (thread_destroy t (unlink prev next s))
        | false ↦ reap_loop k t next s
      ]
    ]

-- The first ready thread is taken out of the queue; 0 if there is none.
unfoldable pub select_loop : ℕ → ℕ → ℕ → Sched → Option (Sched × ℕ)
select_loop zero prev candidate s = none
select_loop (suc k) prev candidate s =
    let next = (s.threads candidate).next in
    elim (candidate == 0) [
      | true ↦ some (s, 0)
      | false ↦ elim (is_ready (s.threads candidate).state) [
        | true ↦ some (unlink prev next s, candidate)
        | false ↦ select_loop k candidate next s
      ]
    ]
