-- ===== src/Scheduler/Callers.antt =====
-- The timer interrupt, `scheduler_yield`, `thread_exit` and `thread_sleep` on linked threads do what
-- the model does.
use mathlib.Core.Path.{subst}
use ded_os.Base.{ℕ, ◌<◌, ◌≡◌, refl, ap, false, ◌==◌, ==-ne, length}
use ded_os.Base.Word.{add64}
use ded_os.Scheduler.Thread.{Registers, Sched}
use ded_os.Scheduler.Tick.{timer_interrupt, scheduler_yield, thread_exit, thread_sleep}
use ded_os.Scheduler.Model.{View, view, set_current, give_up, die, doze}
use ded_os.Scheduler.Model
use ded_os.Scheduler.Shows.{Shows, set_current-Shows}
use ded_os.Scheduler.Sound.{Queued, set_current-Queued, ticks-Queued}
use ded_os.Scheduler.Refine.{Ends, scheduler_tick_irq-refines}

module _ {s : Sched} {v : View} (r : Shows s v) where
  same_current : s.current ≡ v.current
  same_current = ap (λ (w : View). w.current) r.rest

  same_ticks : s.timer_ticks ≡ v.timer_ticks
  same_ticks = ap (λ (w : View). w.timer_ticks) r.rest

  has_current : Queued v → (s.current == 0) ≡ false
  has_current q = ==-ne s.current 0 (rw same_current q.current_some)

  Shows-ticks :
      Shows
        (record s { timer_ticks = add64 s.timer_ticks 1 })
        (record v { timer_ticks = add64 v.timer_ticks 1 })
  Shows-ticks = record {
    chain = r.chain;
    rest = ap (λ (w : View). record w { timer_ticks = add64 w.timer_ticks 1 }) r.rest;
  }

module _ (k : ℕ) {s : Sched} {v : View} (frame : Registers) (r : Shows s v) (q : Queued v)
    (h : length v.queue < k) where
  -- The timer interrupt.
  pub timer_interrupt-refines : Ends (timer_interrupt k frame s) (Model.interrupt frame v)
  unfolding timer_interrupt Model.interrupt
  timer_interrupt-refines =
      rw (has_current r q) (scheduler_tick_irq-refines k frame (Shows-ticks r) (ticks-Queued _ q) h)

module _ (k : ℕ) {s : Sched} {v : View} (frame : Registers) (r : Shows s v) (q : Queued v)
    (h : length v.queue < k) where
  -- On a state that shows `v`, with more fuel than threads are queued, `scheduler_yield` ends with
  -- the frame and a state that shows what the model makes of it: the quantum given up, then a tick.
  pub scheduler_yield-refines : Ends (scheduler_yield k frame s) (Model.yield frame v)
  unfolding scheduler_yield Model.yield set_current
  scheduler_yield-refines = rw (has_current r q) (
      timer_interrupt-refines k frame (set_current-Shows give_up (λ t. refl) (λ t. refl) r)
        (set_current-Queued give_up q) h)

module _ (k : ℕ) {s : Sched} {v : View} (frame : Registers) (r : Shows s v) (q : Queued v)
    (h : length v.queue < k) where
  -- On a state that shows `v`, with more fuel than threads are queued, `thread_exit` ends with the
  -- frame and a state that shows what the model makes of it: the thread dead, then a yield.
  pub thread_exit-refines : Ends (thread_exit k frame s) (Model.exit frame v)
  unfolding thread_exit Model.exit set_current
  thread_exit-refines =
      scheduler_yield-refines k frame (set_current-Shows die (λ t. refl) (λ t. refl) r)
        (set_current-Queued die q) h

  -- On a state that shows `v`, with more fuel than threads are queued, `thread_sleep` ends with the
  -- frame and a state that shows what the model makes of it: the thread blocked until `ms` ticks
  -- from now, then a yield.
  pub thread_sleep-refines : (ms : ℕ) → Ends (thread_sleep ms k frame s) (Model.sleep ms frame v)
  unfolding thread_sleep Model.sleep set_current
  thread_sleep-refines ms =
      subst
        (λ now.
          Ends (thread_sleep ms k frame s)
            (Model.yield frame (set_current (doze (add64 now ms)) v)))
        (same_ticks r)
        (scheduler_yield-refines k frame
          (set_current-Shows (doze (add64 s.timer_ticks ms)) (λ t. refl) (λ t. refl) r)
          (set_current-Queued (doze (add64 s.timer_ticks ms)) q) h)
