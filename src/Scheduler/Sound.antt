-- ===== src/Scheduler/Sound.antt =====
-- The invariant of the scheduler on a list, and that every step keeps it: no thread is queued
-- twice, the current thread and the idle thread are not queued, and NULL is neither.
use ded_os.Base.{
  ℕ, ◌+◌, ◌≤◌, ◌≡◌, refl, ◌≢◌, sym, ◌⊎◌, inl, inr, false, List, ◌∷◌, arith, ◌==◌, ==-ne, if_both,
  Bool-cases, ltb, length,
}
use ded_os.Scheduler.Thread.{Registers, Thread, ThreadState, ready, running, blocked, dead}
use ded_os.Scheduler.Chain.{has, Distinct, wake_all, without_first_ready}
use ded_os.Scheduler.Model.{
  View, Outcome, wake, reap, charge, requeue, leave, set_current, enter, chosen, switch,
  charge_or_switch, tick,
}
use ded_os.Scheduler.Queue.{
  has-alive, Distinct-alive, length-alive, has-without, Distinct-without, first_ready-in,
  first_ready-out, length-without,
}

pub record Queued (v : View) : Type 0 where
  pub once : Distinct v.queue
  pub not_current : has v.current v.queue ≡ false
  pub not_idle : has v.idle v.queue ≡ false
  pub not_null : has 0 v.queue ≡ false
  pub current_some : v.current ≢ 0
  pub idle_some : v.idle ≢ 0

module _ {v : View} (q : Queued v) where
  pub wake-Queued : Queued (wake v)
  unfolding wake
  wake-Queued = record {
    once = q.once;
    not_current = q.not_current;
    not_idle = q.not_idle;
    not_null = q.not_null;
    current_some = q.current_some;
    idle_some = q.idle_some;
  }

  pub reap-Queued : Queued (reap v)
  unfolding reap
  reap-Queued = record {
    once = Distinct-alive v.threads v.queue q.once;
    not_current = has-alive v.threads _ v.queue q.not_current;
    not_idle = has-alive v.threads _ v.queue q.not_idle;
    not_null = has-alive v.threads _ v.queue q.not_null;
    current_some = q.current_some;
    idle_some = q.idle_some;
  }

  pub charge-Queued : Queued (charge v)
  unfolding charge
  charge-Queued = elim (Bool-cases (ltb 0 (v.threads v.current).quantum)) [
    | inl e ↦ rw e (record {
      once = q.once;
      not_current = q.not_current;
      not_idle = q.not_idle;
      not_null = q.not_null;
      current_some = q.current_some;
      idle_some = q.idle_some;
    })
    | inr e ↦ rw e q
  ]

-- `v'` has the queue of `v`, or that with the current thread in front, which is not the idle one.
record Left (v v' : View) : Type 0 where
  queue : (v'.queue ≡ v.queue) ⊎ ((v'.queue ≡ v.current ∷ v.queue) × (v.current ≢ v.idle))
  idle : v'.idle ≡ v.idle

requeue-Left : (v : View) → v.current ≢ v.idle → Left v (requeue v)
unfolding requeue
requeue-Left v ne = at (v.threads v.current).state refl
  where
    at : (st : ThreadState) → (v.threads v.current).state ≡ st → Left v (requeue v)
    at ready e = rw (e, requeue) (record { queue = inr (refl, ne); idle = refl })
    at blocked e = rw (e, requeue) (record { queue = inr (refl, ne); idle = refl })
    at running e = rw (e, requeue) (record { queue = inr (refl, ne); idle = refl })
    at dead e = rw (e, requeue) (record { queue = inl refl; idle = refl })

leave-Left : (frame : Registers) (v : View) → Left v (leave frame v)
unfolding leave set_current
leave-Left frame v = elim (Bool-cases (v.current == v.idle)) [
  | inl e ↦ rw e (record { queue = inl refl; idle = refl })
  | inr e ↦
      let l = requeue-Left v (λ (h : v.current ≡ v.idle). ground arith) in
      rw e (record { queue = l.queue; idle = l.idle })
]

-- A queue that a thread `next` can leave behind.
record Clear (next idle : ℕ) (queue : List ℕ) : Type 0 where
  once : Distinct queue
  not_next : has next queue ≡ false
  not_idle : has idle queue ≡ false
  not_null : has 0 queue ≡ false

enter-Queued :
    (next : ℕ) (v : View)
    → Clear next v.idle v.queue
    → next ≢ 0
    → v.idle ≢ 0
    → Queued (enter next v)
unfolding enter
enter-Queued next v c next_some idle_some = record {
  once = c.once;
  not_current = c.not_next;
  not_idle = c.not_idle;
  not_null = c.not_null;
  current_some = next_some;
  idle_some = idle_some;
}

module _ {v : View} (q : Queued v) where
  chosen_some : chosen v ≢ 0
  unfolding chosen
  chosen_some h = ground (arith, q.idle_some)

  -- The queue without the next thread, and the same with the current thread in front.
  Clear-without : Clear (chosen v) v.idle (without_first_ready v.threads v.queue)
  unfolding chosen
  Clear-without = record {
    once = Distinct-without v.threads v.queue q.once;
    not_next = ground (
      arith,
      first_ready-out v.threads v.queue q.once,
      has-without v.threads v.idle v.queue q.not_idle,
    );
    not_idle = has-without v.threads v.idle v.queue q.not_idle;
    not_null = has-without v.threads 0 v.queue q.not_null;
  }

  pub chosen-ne_current : v.current ≢ v.idle → chosen v ≢ v.current
  unfolding chosen
  chosen-ne_current ne h = ground (arith, first_ready-in v.threads v.queue, q.not_current)

  Clear-cons :
      v.current ≢ v.idle
      → Clear (chosen v) v.idle (v.current ∷ without_first_ready v.threads v.queue)
  Clear-cons ne = record {
    once = (has-without v.threads v.current v.queue q.not_current, Clear-without.once);
    not_next = rw (==-ne (chosen v) v.current (chosen-ne_current ne)) Clear-without.not_next;
    not_idle = rw (==-ne v.idle v.current (λ h. ne (sym h))) Clear-without.not_idle;
    not_null = rw (==-ne 0 v.current (λ h. q.current_some (sym h))) Clear-without.not_null;
  }

  pub switch-Queued : (frame : Registers) → Queued (switch frame v).0
  unfolding switch
  switch-Queued frame =
      let rest = record v { queue = without_first_ready v.threads v.queue } in
      let l = leave-Left frame rest in
      enter-Queued (chosen v) (leave frame rest) (rw l.idle (at l.queue)) chosen_some
        (rw l.idle q.idle_some)
    where
      at :
          {queue : List ℕ}
          → (queue ≡ without_first_ready v.threads v.queue)
            ⊎ ((queue ≡ v.current ∷ without_first_ready v.threads v.queue) × (v.current ≢ v.idle))
          → Clear (chosen v) v.idle queue
      at (inl e) = rw e Clear-without
      at (inr (e, ne)) = rw e (Clear-cons ne)

pub charge_or_switch-Queued :
    (frame : Registers) {v : View} → Queued v → Queued (charge_or_switch frame v).0
unfolding charge_or_switch
charge_or_switch-Queued frame {v} q =
    elim (Bool-cases (ltb 0 ((charge v).threads (charge v).current).quantum)) [
      | inl e ↦ rw e (charge-Queued q)
      | inr e ↦ rw e (switch-Queued (charge-Queued q) frame)
    ]

-- A tick keeps the invariant.
pub tick-Queued : (frame : Registers) {v : View} → Queued v → Queued (tick frame v).0
unfolding tick
tick-Queued frame {v} q =
    if_both (λ (o : Outcome). Queued o.0) v.locked q
      (charge_or_switch-Queued frame (reap-Queued (wake-Queued q)))

-- The queue's invariant does not see the current thread's own fields, nor the clock.
pub set_current-Queued : (f : Thread → Thread) {v : View} → Queued v → Queued (set_current f v)
unfolding set_current
set_current-Queued f q = record {
  once = q.once;
  not_current = q.not_current;
  not_idle = q.not_idle;
  not_null = q.not_null;
  current_some = q.current_some;
  idle_some = q.idle_some;
}

pub ticks-Queued : (n : ℕ) {v : View} → Queued v → Queued (record v { timer_ticks = n })
ticks-Queued n q = record {
  once = q.once;
  not_current = q.not_current;
  not_idle = q.not_idle;
  not_null = q.not_null;
  current_some = q.current_some;
  idle_some = q.idle_some;
}

-- A tick queues at most one thread more.
length-switch :
    (frame : Registers) (v : View) → length (switch frame v).0.queue ≤ length v.queue + 1
unfolding switch enter
length-switch frame v =
    at (leave-Left frame (record v { queue = without_first_ready v.threads v.queue })).queue
  where
    at :
        {queue : List ℕ}
        → (queue ≡ without_first_ready v.threads v.queue)
          ⊎ ((queue ≡ v.current ∷ without_first_ready v.threads v.queue) × (v.current ≢ v.idle))
        → length queue ≤ length v.queue + 1
    at (inl e) = rw e (omega (arith, length-without v.threads v.queue))
    at (inr (e, ne)) = rw e (omega (arith, length-without v.threads v.queue))

pub length-tick :
    (frame : Registers) (v : View) → length (tick frame v).0.queue ≤ length v.queue + 1
unfolding tick charge_or_switch
length-tick frame v =
    if_both (λ (o : Outcome). length o.0.queue ≤ length v.queue + 1) v.locked (omega arith)
      (if_both (λ (o : Outcome). length o.0.queue ≤ length v.queue + 1)
        (ltb 0 ((charge w).threads (charge w).current).quantum) (omega (arith, short))
        (omega (arith, short, length-switch frame (charge w))))
  where
    w : View
    w = reap (wake v)

    short : length (charge w).queue ≤ length v.queue
    short =
        unfold charge reap wake in
        ground (arith, length-alive (wake_all v.timer_ticks v.queue v.threads) v.queue)
