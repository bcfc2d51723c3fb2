-- ===== src/Scheduler/Refine.antt =====
-- `scheduler_tick_irq` and its callers on linked threads end, with fuel for the length of the
-- queue, and do what the model does on the list.
use mathlib.Core.Path.{fun_ext}
use ded_os.Base.{
  ℕ, ◌<◌, ◌≡◌, refl, sym, ◌∙◌, ap, Bool, true, false, ◌||◌, Option, some, List, ◌++◌, arith, ◌==◌,
  ==-ne, if◌then◌else◌, ltb, length,
}
use ded_os.Scheduler.Thread.{Registers, Sched}
use ded_os.Scheduler.Loops.{reap_loop}
use ded_os.Scheduler.Tick
use ded_os.Scheduler.Tick.{
  switch_to, dispatch, charge_or_dispatch, load_frame, scheduler_tick_irq, timer_interrupt,
  scheduler_yield, thread_exit, thread_sleep,
}
use ded_os.Scheduler.Chain.{
  Store, body, wake_all, alive, destroyed, alive-body, destroyed-body, first_ready,
  first_ready-body, without_first_ready, without_first_ready-body,
}
use ded_os.Scheduler.Walks.{wake_loop-wake_all}
use ded_os.Scheduler.Relink.{Rebuilt}
use ded_os.Scheduler.Reap.{reap_loop-Reaps}
use ded_os.Scheduler.Select.{select_loop-Selects}
use ded_os.Scheduler.Model.{View, Outcome, view}
use ded_os.Scheduler.Model
use ded_os.Scheduler.Shows.{Shows, lift}
use ded_os.Scheduler.Steps.{charge-Shows, leave-Shows, enter-Shows, wake-Shows}
use ded_os.Scheduler.Sound.{Queued, wake-Queued, reap-Queued, charge-Queued}
use ded_os.Scheduler.Queue.{length-alive, has-without}

-- The call ended with a state and a frame, and they are those of the outcome.
abbrev pub Ends : Option (Sched × Registers) → Outcome → Type 0
Ends r o = (s : Sched) × (r ≡ some (s, o.1)) × Shows s o.0

-- What the two walks leave in memory, as the model's queue.
Rebuilt-view :
    (s : Sched) (q ys : List ℕ) {rq : ℕ} {m : Store} (freed : List ℕ)
    → Rebuilt s 0 q ys rq m
    → view (record s { run_queue = rq; threads = m; freed = freed }) ys
      ≡ record (view s q) { queue = ys; freed = freed }
Rebuilt-view s q ys freed b =
    ap (λ (t : Store). record (view s q) { queue = ys; freed = freed; threads = t })
      (fun_ext b.bodies)

reaped-Shows :
    (s : Sched) (q : List ℕ) {rq : ℕ} {m : Store}
    → Rebuilt s 0 q (alive s.threads q) rq m
    → Shows
        (record s { run_queue = rq; threads = m; freed = s.freed ++ destroyed s.threads q })
        (Model.reap (view s q))
unfolding Model.reap
reaped-Shows s q {rq} {m} b =
    rw
      (
        alive-body s.threads (λ a. body (s.threads a)) (λ a. refl) q,
        destroyed-body s.threads (λ a. body (s.threads a)) (λ a. refl) q,
      )
      (record { chain = b.chain; rest = Rebuilt-view s q _ _ b })

selected-Shows :
    (s : Sched) (q : List ℕ) {rq : ℕ} {m : Store}
    → Rebuilt s 0 q (without_first_ready s.threads q) rq m
    → Shows
        (record s { run_queue = rq; threads = m })
        (record (view s q) { queue = without_first_ready (view s q).threads q })
selected-Shows s q b =
    rw (without_first_ready-body s.threads (λ a. body (s.threads a)) (λ a. refl) q)
      (record { chain = b.chain; rest = Rebuilt-view s q _ s.freed b })

reap-step :
    (k : ℕ) {s : Sched} {v : View}
    → Shows s v
    → Queued v
    → length v.queue < k
    → (s' : Sched) × (reap_loop k 0 s.run_queue s ≡ some s') × Shows s' (Model.reap v)
reap-step k {s} {v} r q h =
    let (rq, m, run, b) =
      reap_loop-Reaps k 0 s.run_queue v.queue s r.chain q.once q.not_null refl h in
    (_, run, lift Model.reap r (reaped-Shows s v.queue b))

wake-queue : (v : View) → (Model.wake v).queue ≡ v.queue
unfolding Model.wake
wake-queue v = refl

reap_short : {k : ℕ} (v : View) → length v.queue < k → length (Model.reap (Model.wake v)).queue < k
unfolding Model.wake Model.reap
reap_short v h = omega (arith, length-alive (wake_all v.timer_ticks v.queue v.threads) v.queue)

-- The switch to the next thread.
switch_to-Ends :
    {s : Sched} {v : View} (next : ℕ) (frame : Registers)
    → Shows s (record v { queue = without_first_ready v.threads v.queue })
    → Queued v
    → (if next == 0 then s.idle else next) ≡ Model.chosen v
    → Ends (some (switch_to next frame s)) (Model.switch frame v)
unfolding switch_to Model.switch Model.chosen Model.enter
switch_to-Ends {s} {v} next frame r q e = rw e (
  s',
  ap (λ (c : Registers). some (s', load_frame frame c))
      (ap (λ (w : View). (w.threads w.current).context) shown.rest),
  shown,
)
  where
    same : s.current ≡ v.current
    same = ap (λ (w : View). w.current) r.rest

    left :
        Shows
          (Tick.leave frame s)
          (Model.leave frame (record v { queue = without_first_ready v.threads v.queue }))
    left =
        leave-Shows frame r (rw same (has-without v.threads v.current v.queue q.not_current))
          (rw same q.current_some)

    s' : Sched
    s' = Tick.enter (Model.chosen v) (Tick.leave frame s)

    shown : Shows s' (
        Model.enter
          (Model.chosen v)
          (Model.leave frame (record v { queue = without_first_ready v.threads v.queue })))
    shown = enter-Shows (Model.chosen v) left

dispatch-Ends :
    (k : ℕ) {s : Sched} {v : View} (frame : Registers)
    → Shows s v
    → Queued v
    → length v.queue < k
    → Ends (dispatch k frame s) (Model.switch frame v)
unfolding dispatch
dispatch-Ends k {s} {v} frame r q h =
    let (rq, m, run, b) =
      select_loop-Selects k 0 s.run_queue v.queue s r.chain q.once q.not_null refl h in
    rw run (
      switch_to-Ends (first_ready s.threads v.queue) frame (selected b) q (
        ap (λ (n : ℕ). if n == 0 then s.idle else n)
          (sym (first_ready-body s.threads (λ a. body (s.threads a)) (λ a. refl) v.queue))
        ∙ chosen_view))
  where
    selected :
        {rq : ℕ} {m : Store}
        → Rebuilt s 0 v.queue (without_first_ready s.threads v.queue) rq m
        → Shows
            (record s { run_queue = rq; threads = m })
            (record v { queue = without_first_ready v.threads v.queue })
    selected b =
        lift (λ (w : View). record w { queue = without_first_ready w.threads w.queue }) r
          (selected-Shows s v.queue b)

    chosen_view :
        (let n = first_ready (λ a. body (s.threads a)) v.queue in if n == 0 then s.idle else n)
        ≡ Model.chosen v
    chosen_view = unfold Model.chosen in ap Model.chosen r.rest

-- Both sides branch on the same test.
Ends-if :
    (frame : Registers) {s : Sched} {v : View} {b b' : Bool} {r : Option (Sched × Registers)}
    {o : Outcome}
    → b ≡ b'
    → Shows s v
    → Ends r o
    → Ends (if b then some (s, frame) else r) (if b' then (v, frame) else o)
Ends-if frame {s} {v} {b} {b'} {r} {o} e now later = rw e (at b')
  where
    at : (b : Bool) → Ends (if b then some (s, frame) else r) (if b then (v, frame) else o)
    at true = (s, refl, now)
    at false = later

charge-queue : (v : View) → length (Model.charge v).queue ≡ length v.queue
unfolding Model.charge
charge-queue v = ground arith

charge_or_dispatch-Ends :
    (k : ℕ) {s : Sched} {v : View} (frame : Registers)
    → Shows s v
    → Queued v
    → length v.queue < k
    → Ends (charge_or_dispatch k frame s) (Model.charge_or_switch frame v)
unfolding charge_or_dispatch Model.charge_or_switch
charge_or_dispatch-Ends k {s} {v} frame r q h =
    Ends-if frame same charged
      (dispatch-Ends k frame charged (charge-Queued q) (rw (charge-queue v) h))
  where
    charged : Shows (Tick.charge s) (Model.charge v)
    charged = charge-Shows r

    same :
        ltb 0 ((Tick.charge s).threads (Tick.charge s).current).quantum
        ≡ ltb 0 ((Model.charge v).threads (Model.charge v).current).quantum
    same = ap (λ (w : View). ltb 0 (w.threads w.current).quantum) charged.rest

-- On a state that shows `v`, whose queue keeps the invariant, and with more fuel than threads are
-- queued, `scheduler_tick_irq` ends with the frame that the model's tick gives, in a state that shows
-- what the model's tick makes of `v`.
pub scheduler_tick_irq-refines :
    (k : ℕ) {s : Sched} {v : View} (frame : Registers)
    → Shows s v
    → Queued v
    → length v.queue < k
    → Ends (scheduler_tick_irq k frame s) (Model.tick frame v)
unfolding scheduler_tick_irq Model.tick
scheduler_tick_irq-refines k {s} {v} frame r q h =
    let (s', run, shown) = reap-step k (wake-Shows r) (wake-Queued q) (rw (wake-queue v) h) in
    Ends-if frame quiet r (
      rw (wake_loop-wake_all k v.queue s.run_queue s r.chain q.once h) (
        rw run
          (charge_or_dispatch-Ends k frame shown (reap-Queued (wake-Queued q)) (reap_short v h))))
  where
    quiet : ((s.current == 0) || s.locked) ≡ v.locked
    quiet =
        rw (==-ne s.current 0 (rw (ap (λ (w : View). w.current) r.rest) q.current_some))
          (ap (λ (w : View). w.locked) r.rest)
