-- ===== src/Scheduler/System.antt =====
-- Histories of the scheduler: timer interrupts, threads that yield, exit and sleep, new threads, and
-- the lock, in any order. Every history on linked threads ends, and shows the model's history.
use ded_os.Base.{
  ℕ, ◌+◌, ◌<◌, ◌≤◌, ◌≡◌, refl, ◌≢◌, sym, ◌∙◌, ap, true, false, Option, some, List, [], ◌∷◌, arith,
  ==-ne, length,
}
use ded_os.Base.Partial.{◌>>=◌}
use ded_os.Base.Memory.{update, update_self, update-update}
use ded_os.Scheduler.Thread.{Registers, Thread, Sched, ready}
use ded_os.Scheduler.Loops.{set_thread}
use ded_os.Scheduler.Tick.{
  timer_interrupt, scheduler_yield, thread_exit, thread_sleep, scheduler_add_thread, scheduler_lock,
  scheduler_unlock,
}
use ded_os.Scheduler.Chain.{has, body}
use ded_os.Scheduler.Model.{View, Outcome, view, set_current, give_up, die, doze}
use ded_os.Scheduler.Model
use ded_os.Scheduler.Shows.{Shows, bodies, bodies-update, IsChain-outside}
use ded_os.Scheduler.Sound.{Queued, set_current-Queued, ticks-Queued, tick-Queued, length-tick}
use ded_os.Scheduler.Refine.{Ends}
use ded_os.Scheduler.Callers.{
  timer_interrupt-refines, scheduler_yield-refines, thread_exit-refines, thread_sleep-refines,
}

pub data Event : Type 0 where
  interrupted : Registers → Event
  yielded : Registers → Event
  exited : Registers → Event
  slept : ℕ → Registers → Event
  added : ℕ → Thread → Event
  locked : Event
  unlocked : Event

-- The state after an event; `added a t` finds the new thread `t` at `a`.
unfoldable pub step : ℕ → Event → Sched → Option Sched
step k (interrupted frame) s = do (s', _) ← timer_interrupt k frame s; some s'
step k (yielded frame) s = do (s', _) ← scheduler_yield k frame s; some s'
step k (exited frame) s = do (s', _) ← thread_exit k frame s; some s'
step k (slept ms frame) s = do (s', _) ← thread_sleep ms k frame s; some s'
step k (added a t) s = some (scheduler_add_thread a (set_thread a t s))
step k locked s = some (scheduler_lock s)
step k unlocked s = some (scheduler_unlock s)

unfoldable pub steps : ℕ → List Event → Sched → Option Sched
steps k [] s = some s
steps k (e ∷ es) s = do s' ← step k e s; steps k es s'

unfoldable pub model_step : Event → View → View
model_step (interrupted frame) v = (Model.interrupt frame v).0
model_step (yielded frame) v = (Model.yield frame v).0
model_step (exited frame) v = (Model.exit frame v).0
model_step (slept ms frame) v = (Model.sleep ms frame v).0
model_step (added a t) v = record v { queue = a ∷ v.queue; threads = update v.threads a (body t) }
model_step locked v = record v { locked = true }
model_step unlocked v = record v { locked = false }

unfoldable pub model_steps : List Event → View → View
model_steps [] v = v
model_steps (e ∷ es) v = model_steps es (model_step e v)

-- A thread that is added is ready, and is a thread that the scheduler does not have.
pub record IsNew (a : ℕ) (t : Thread) (v : View) : Type 0 where
  pub is_ready : t.state ≡ ready
  pub not_null : a ≢ 0
  pub not_queued : has a v.queue ≡ false
  pub not_current : a ≢ v.current
  pub not_idle : a ≢ v.idle

abbrev pub Allowed : Event → View → Type 0
Allowed (added a t) v = IsNew a t v
Allowed _ v = Unit

abbrev pub AllAllowed : List Event → View → Type 0
AllAllowed [] v = Unit
AllAllowed (e ∷ es) v = Allowed e v × AllAllowed es (model_step e v)

pub model_step-Queued : (e : Event) {v : View} → Allowed e v → Queued v → Queued (model_step e v)
unfolding model_step Model.interrupt Model.yield Model.exit Model.sleep
model_step-Queued (interrupted frame) ok q = tick-Queued frame (ticks-Queued _ q)
model_step-Queued (yielded frame) ok q =
    tick-Queued frame (ticks-Queued _ (set_current-Queued give_up q))
model_step-Queued (exited frame) ok q =
    tick-Queued frame (ticks-Queued _ (set_current-Queued give_up (set_current-Queued die q)))
model_step-Queued (slept ms frame) ok q =
    tick-Queued frame (ticks-Queued _ (set_current-Queued give_up (set_current-Queued (doze _) q)))
model_step-Queued (added a t) {v} ok q = record {
  once = (ok.not_queued, q.once);
  not_current = rw (==-ne v.current a (λ e. ok.not_current (sym e))) q.not_current;
  not_idle = rw (==-ne v.idle a (λ e. ok.not_idle (sym e))) q.not_idle;
  not_null = rw (==-ne 0 a (λ e. ok.not_null (sym e))) q.not_null;
  current_some = q.current_some;
  idle_some = q.idle_some;
}
model_step-Queued locked ok q = record {
  once = q.once;
  not_current = q.not_current;
  not_idle = q.not_idle;
  not_null = q.not_null;
  current_some = q.current_some;
  idle_some = q.idle_some;
}
model_step-Queued unlocked ok q = record {
  once = q.once;
  not_current = q.not_current;
  not_idle = q.not_idle;
  not_null = q.not_null;
  current_some = q.current_some;
  idle_some = q.idle_some;
}

abbrev pub StepEnds : Option Sched → View → Type 0
StepEnds r v = (s : Sched) × (r ≡ some s) × Shows s v

Ends-step :
    {r : Option (Sched × Registers)} {o : Outcome}
    → Ends r o
    → StepEnds (do (s', _) ← r; some s') o.0
Ends-step (s, e, shown) = (s, rw e, shown)

length-step : (e : Event) (v : View) → length (model_step e v).queue ≤ length v.queue + 1
unfolding model_step Model.interrupt Model.yield Model.exit Model.sleep set_current
length-step (interrupted frame) v = length-tick frame _
length-step (yielded frame) v = length-tick frame _
length-step (exited frame) v = length-tick frame _
length-step (slept ms frame) v = length-tick frame _
length-step (added a t) v = omega arith
length-step locked v = omega arith
length-step unlocked v = omega arith

add-Shows :
    (a : ℕ) (t : Thread) {s : Sched} {v : View}
    → IsNew a t v
    → Shows s v
    → Shows (scheduler_add_thread a (set_thread a t s)) (model_step (added a t) v)
unfolding scheduler_add_thread model_step bodies
add-Shows a t {s} {v} ok r =
    let m = update s.threads a t in
    let linked = record (m a) { next = s.run_queue } in
    record {
      chain = (
        refl,
        ok.not_null,
        rw (ap (λ (t : Thread). t.next) (update_self m a linked)) (
            IsChain-outside m a s.run_queue linked v.queue ok.not_queued
              (IsChain-outside s.threads a s.run_queue t v.queue ok.not_queued r.chain)),
      );
      rest =
          ap (λ (f : ℕ → Thread). record (view s v.queue) { queue = a ∷ v.queue; threads = f })
            (bodies-update m a linked
              ∙ ap (update (bodies m) a) (ap body (update_self s.threads a t))
              ∙ ap (λ (f : ℕ → Thread). update f a (body t)) (bodies-update s.threads a t)
              ∙ update-update (bodies s.threads) a (body t) (body t))
          ∙ ap
              (λ (w : View). record w {
                queue = a ∷ w.queue;
                threads = update w.threads a (body t);
              })
              r.rest;
    }

step-refines :
    (k : ℕ) (e : Event) {s : Sched} {v : View}
    → Allowed e v
    → Shows s v
    → Queued v
    → length v.queue < k
    → StepEnds (step k e s) (model_step e v)
unfolding step model_step scheduler_lock scheduler_unlock
step-refines k (interrupted frame) ok r q h = Ends-step (timer_interrupt-refines k frame r q h)
step-refines k (yielded frame) ok r q h = Ends-step (scheduler_yield-refines k frame r q h)
step-refines k (exited frame) ok r q h = Ends-step (thread_exit-refines k frame r q h)
step-refines k (slept ms frame) ok r q h = Ends-step (thread_sleep-refines k frame r q h ms)
step-refines k (added a t) ok r q h = (_, refl, unfold model_step in add-Shows a t ok r)
step-refines k locked {s} ok r q h = (
  record s { locked = true },
  refl,
  record { chain = r.chain; rest = ap (λ (w : View). record w { locked = true }) r.rest },
)
step-refines k unlocked {s} ok r q h = (
  record s { locked = false },
  refl,
  record { chain = r.chain; rest = ap (λ (w : View). record w { locked = false }) r.rest },
)

-- On a state that shows `v`, whose queue keeps the invariant, every history of events that adds
-- only new threads ends, with fuel for the threads that may be queued in it, in a state that shows
-- what the model's history makes of `v`; the invariant holds there.
pub steps-refines :
    (k : ℕ) (es : List Event) {s : Sched} {v : View}
    → AllAllowed es v
    → Shows s v
    → Queued v
    → length v.queue + length es < k
    → StepEnds (steps k es s) (model_steps es v) × Queued (model_steps es v)
unfolding steps model_steps
steps-refines k [] {s} ok r q h = ((s, refl, r), q)
steps-refines k (e ∷ es) {s} {v} ok r q h =
    let (s', run, shown) = step-refines k e ok.0 r q (omega arith) in
    let q' = model_step-Queued e ok.0 q in
    rw run (steps-refines k es ok.1 shown q' (omega (arith, length-step e v)))
