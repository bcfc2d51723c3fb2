-- ===== src/Scheduler/Dead.antt =====
-- Threads that exit, over whole histories: nothing is ever freed.
use ded_os.Base.{
  ℕ, ◌≡◌, ◌≢◌, sym, ◌∙◌, ap, inl, inr, true, false, List, [], ◌∷◌, arith, ◌==◌, ==-ne, ==_iff,
  if◌then◌else◌, if_false, Bool-cases, ltb,
}
use ded_os.Base.Word.{add64}
use ded_os.Base.Memory.{update, update_self, update_ne}
use ded_os.Scheduler.Thread.{Registers, Thread, dead}
use ded_os.Scheduler.Chain.{has, body, wake_all}
use ded_os.Scheduler.Model.{
  View, Outcome, set_current, give_up, die, doze, tick, exit, yield, interrupt, sleep, wake, reap,
  charge, charge_or_switch, switch, leave, requeue, enter, chosen,
}
use ded_os.Scheduler.Queue.{has-without}
use ded_os.Scheduler.Sound.{
  Queued, set_current-Queued, ticks-Queued, chosen-ne_current, wake-Queued, reap-Queued,
}
use ded_os.Scheduler.Leak.{Calm, tick-Calm, waits, apart}
use ded_os.Scheduler.System.{
  Event, interrupted, yielded, exited, slept, added, locked, unlocked, model_step, model_steps,
  Allowed, AllAllowed, model_step-Queued,
}

set_current-Calm :
    (f : Thread → Thread) {freed : List ℕ} {v : View}
    → Queued v
    → Calm freed v
    → Calm freed (set_current f v)
unfolding set_current
set_current-Calm f {v} q c = record {
  waiting = λ a h.
      ap (λ (t : Thread). waits t.state)
        (update_ne v.threads v.current _ a (apart a _ _ h q.not_current))
      ∙ c.waiting a h;
  kept = c.kept;
}

-- The clock is one tick on when the tick is handled.
interrupt-Calm :
    (frame : Registers) {freed : List ℕ} {v : View}
    → Queued v
    → Calm freed v
    → Calm freed (interrupt frame v).0
unfolding interrupt
interrupt-Calm frame q c =
    tick-Calm frame (ticks-Queued _ q) (record { waiting = c.waiting; kept = c.kept })

yield-Calm :
    (frame : Registers) {freed : List ℕ} {v : View}
    → Queued v
    → Calm freed v
    → Calm freed (yield frame v).0
unfolding yield
yield-Calm frame q c =
    interrupt-Calm frame (set_current-Queued give_up q) (set_current-Calm give_up q c)

model_step-Calm :
    {freed : List ℕ} (e : Event) {v : View}
    → Allowed e v
    → Queued v
    → Calm freed v
    → Calm freed (model_step e v)
unfolding model_step exit sleep
model_step-Calm (interrupted frame) ok q c = interrupt-Calm frame q c
model_step-Calm (yielded frame) ok q c = yield-Calm frame q c
model_step-Calm (exited frame) ok q c =
    yield-Calm frame (set_current-Queued die q) (set_current-Calm die q c)
model_step-Calm (slept ms frame) ok q c =
    yield-Calm frame (set_current-Queued (doze _) q) (set_current-Calm (doze _) q c)
model_step-Calm (added a t) {v} ok q c = record { waiting = new; kept = c.kept }
  where
    new : (b : ℕ) → has b (a ∷ v.queue) ≡ true → waits (update v.threads a (body t) b).state ≡ true
    new b h = elim (Bool-cases (b == a)) [
      | inl e ↦
          let e' : b ≡ a = (==_iff b a).0 e in
          rw e'
            (ap (λ (t : Thread). waits t.state) (update_self v.threads a (body t)) ∙ rw ok.is_ready)
      | inr e ↦
          ap (λ (t : Thread). waits t.state)
            (update_ne v.threads a (body t) b (λ (s : b ≡ a). ground arith))
          ∙ c.waiting b (rw e at h)
    ]
model_step-Calm locked ok q c = record { waiting = c.waiting; kept = c.kept }
model_step-Calm unlocked ok q c = record { waiting = c.waiting; kept = c.kept }

-- In every history only ready and blocked threads are queued, and no thread is ever freed, whatever
-- exits.
pub model_steps-Calm :
    {freed : List ℕ} (es : List Event) {v : View}
    → AllAllowed es v
    → Queued v
    → Calm freed v
    → Calm freed (model_steps es v)
unfolding model_steps
model_steps-Calm [] ok q c = c
model_steps-Calm (e ∷ es) {v} ok q c =
    model_steps-Calm es ok.1 (model_step-Queued e ok.0 q) (model_step-Calm e ok.0 q c)

-- A dead thread that is switched from is in no queue.
switch-drops :
    (frame : Registers) {v : View}
    → Queued v
    → (v.threads v.current).state ≡ dead
    → v.current ≢ v.idle
    → has v.current ((switch frame v).0.current ∷ (switch frame v).0.queue) ≡ false
unfolding switch enter leave set_current requeue
switch-drops frame {v} q is ne =
    rw (==-ne v.current (chosen v) (λ e. chosen-ne_current q ne (sym e))) (
      rw (==-ne v.current v.idle ne)
        (rw (is, requeue) (has-without v.threads v.current v.queue q.not_current)))

no_quantum : (n : ℕ) → n ≡ 0 → ltb 0 n ≡ false
no_quantum n e = rw e

-- With no quantum left a tick switches.
pub charge_or_switch-spent :
    (frame : Registers) (v : View)
    → (v.threads v.current).quantum ≡ 0
    → charge_or_switch frame v ≡ switch frame v
unfolding charge_or_switch
charge_or_switch-spent frame v e =
    ap (λ (w : View). if ltb 0 (w.threads w.current).quantum then (w, frame) else switch frame w)
      same
    ∙ if_false _ (v, frame) (switch frame v) (no_quantum _ e)
  where
    same : charge v ≡ v
    same = unfold charge in if_false _ _ v (no_quantum _ e)

pub tick-unlocked :
    (frame : Registers) (v : View)
    → v.locked ≡ false
    → tick frame v ≡ charge_or_switch frame (reap (wake v))
unfolding tick
tick-unlocked frame v e = if_false v.locked (v, frame) _ e

-- The current thread, which is not queued, is not woken.
pub wake-reap-current :
    (v : View)
    → has v.current v.queue ≡ false
    → (reap (wake v)).threads v.current ≡ v.threads v.current
unfolding reap wake wake_all
wake-reap-current v out = if_false (has v.current v.queue) _ (v.threads v.current) out

-- `thread_exit` of a thread other than the idle one, with the scheduler unlocked: afterwards the
-- thread neither runs nor waits, and nothing was freed.
pub exit-drops :
    (frame : Registers) {freed : List ℕ} {v : View}
    → Queued v
    → Calm freed v
    → v.locked ≡ false
    → v.current ≢ v.idle
    → (has v.current ((exit frame v).0.current ∷ (exit frame v).0.queue) ≡ false)
      × ((exit frame v).0.freed ≡ freed)
unfolding exit set_current reap wake
exit-drops frame {freed} {v} q c free ne = (
  ap (λ (o : Outcome). has v.current (o.0.current ∷ o.0.queue)) switched
      ∙ switch-drops frame (reap-Queued (wake-Queued dying-Queued))
          (ap (λ (t : Thread). t.state) at_switch) ne,
  (yield-Calm frame (set_current-Queued die q) (set_current-Calm die q c)).kept,
)
  where
    dying : View
    dying =
        let w = set_current give_up (set_current die v) in
        record w { timer_ticks = add64 w.timer_ticks 1 }

    dying-Queued : Queued dying
    dying-Queued = ticks-Queued _ (set_current-Queued give_up (set_current-Queued die q))

    its_thread : dying.threads v.current ≡ give_up (die (v.threads v.current))
    its_thread =
        unfold set_current in
        update_self (update v.threads v.current (die (v.threads v.current))) v.current _
        ∙ ap give_up (update_self v.threads v.current (die (v.threads v.current)))

    at_switch : (reap (wake dying)).threads v.current ≡ give_up (die (v.threads v.current))
    at_switch = wake-reap-current dying dying-Queued.not_current ∙ its_thread

    switched : yield frame (set_current die v) ≡ switch frame (reap (wake dying))
    switched =
        unfold yield interrupt in
        tick-unlocked frame dying free
        ∙ charge_or_switch-spent frame (reap (wake dying))
            (ap (λ (t : Thread). t.quantum) at_switch)
