-- ===== src/Scheduler/Keep.antt =====
-- No thread is lost: whoever runs or waits before a tick, and is not dead, runs or waits after it.
use ded_os.Base.{
  ℕ, ◌≡◌, refl, ◌≢◌, ◌∙◌, inl, inr, true, false, List, [], ◌∷◌, arith, ◌==◌, ==-ne, ==_iff, if_both,
  Bool-cases, ltb,
}
use ded_os.Base.Memory.{update-read}
use ded_os.Scheduler.Thread.{Registers, Thread, ThreadState, ready, running, blocked, dead}
use ded_os.Scheduler.Loops.{is_dead, woken}
use ded_os.Scheduler.Chain.{Store, has, wake_all, alive, first_ready, without_first_ready}
use ded_os.Scheduler.Model.{
  View, Outcome, wake, reap, charge, requeue, leave, set_current, enter, chosen, switch,
  charge_or_switch, tick,
}

-- A live thread of the queue is not reaped, and only the first ready one is taken out.
has-alive_of :
    (m : Store) (a : ℕ) (xs : List ℕ)
    → is_dead (m a).state ≡ false
    → has a xs ≡ true
    → has a (alive m xs) ≡ true
unfolding alive
has-alive_of m a [] live h = h
has-alive_of m a (x ∷ xs) live h = ground (arith, has-alive_of m a xs live)

has-without_of :
    (m : Store) (a : ℕ) (xs : List ℕ)
    → a ≢ first_ready m xs
    → has a xs ≡ true
    → has a (without_first_ready m xs) ≡ true
unfolding first_ready without_first_ready
has-without_of m a [] ne h = h
has-without_of m a (x ∷ xs) ne h = ground (arith, has-without_of m a xs)

-- `a` runs or waits, and is alive.
pub record Lives (a : ℕ) (v : View) : Type 0 where
  pub there : has a (v.current ∷ v.queue) ≡ true
  pub live : is_dead (v.threads a).state ≡ false
  pub not_idle : a ≢ v.idle
  pub some_thread : a ≢ 0

true_ne_false : true ≡ false → ⊥
true_ne_false h = cc

woken-dead : (now : ℕ) (t : Thread) → is_dead (woken now t).state ≡ is_dead t.state
woken-dead now t = ground arith

module _ {a : ℕ} {v : View} (l : Lives a v) where
  wake-Lives : Lives a (wake v)
  unfolding wake wake_all
  wake-Lives = record {
    there = l.there;
    live =
        if_both (λ (t : Thread). is_dead t.state ≡ false) (has a v.queue)
          (woken-dead v.timer_ticks (v.threads a) ∙ l.live) l.live;
    not_idle = l.not_idle;
    some_thread = l.some_thread;
  }

  reap-Lives : Lives a (reap v)
  unfolding reap
  reap-Lives = record {
    there = ground (arith, l.there, has-alive_of v.threads a v.queue l.live);
    live = l.live;
    not_idle = l.not_idle;
    some_thread = l.some_thread;
  }

  charge-Lives : Lives a (charge v)
  unfolding charge
  charge-Lives =
      if_both (Lives a) (ltb 0 (v.threads v.current).quantum)
        (record {
          there = l.there;
          live =
              update-read (λ (t : Thread). is_dead t.state) v.threads v.current _ a refl ∙ l.live;
          not_idle = l.not_idle;
          some_thread = l.some_thread;
        })
        l

  -- Who is not the current thread waits.
  waits_unless : a ≢ v.current → has a v.queue ≡ true
  waits_unless ne = rw (==-ne a v.current ne) at l.there

  -- The interrupted thread and those that waited wait, unless it is dead or the idle thread.
  requeue-there : has a (requeue v).queue ≡ true
  unfolding requeue
  requeue-there = at (v.threads v.current).state refl
    where
      at : (st : ThreadState) → (v.threads v.current).state ≡ st → has a (requeue v).queue ≡ true
      at ready e = rw (e, requeue) l.there
      at blocked e = rw (e, requeue) l.there
      at running e = rw (e, requeue) l.there
      at dead e = rw (e, requeue) (waits_unless (λ h. true_ne_false (rw (h, e) at l.live)))

  leave-there : (frame : Registers) → has a (leave frame v).queue ≡ true
  unfolding leave set_current
  leave-there frame = elim (Bool-cases (v.current == v.idle)) [
    | inl e ↦ rw e (waits_unless (λ h. l.not_idle (h ∙ (==_iff v.current v.idle).0 e)))
    | inr e ↦ rw e requeue-there
  ]

switch-there :
    (frame : Registers) {a : ℕ} {v : View}
    → Lives a v
    → has a ((switch frame v).0.current ∷ (switch frame v).0.queue) ≡ true
unfolding switch enter
switch-there frame {a} {v} l = elim (Bool-cases (a == chosen v)) [
  | inl e ↦ rw e
  | inr e ↦ rw e (leave-there (others e) frame)
]
  where
    others :
        (a == chosen v) ≡ false
        → Lives a (record v { queue = without_first_ready v.threads v.queue })
    others e = record {
      there =
          ground (
            arith,
            l.there,
            has-without_of v.threads a v.queue (λ h. unfold chosen in ground arith),
          );
      live = l.live;
      not_idle = l.not_idle;
      some_thread = l.some_thread;
    }

-- A thread that runs or waits before a tick, and is neither dead nor the idle thread, runs or waits
-- after it.
pub tick-keeps :
    (frame : Registers) {a : ℕ} {v : View}
    → Lives a v
    → has a ((tick frame v).0.current ∷ (tick frame v).0.queue) ≡ true
unfolding tick charge_or_switch
tick-keeps frame {a} {v} l =
    if_both (λ (o : Outcome). has a (o.0.current ∷ o.0.queue) ≡ true) v.locked l.there
      (if_both (λ (o : Outcome). has a (o.0.current ∷ o.0.queue) ≡ true)
        (ltb 0 ((charge w).threads (charge w).current).quantum) charged.there
        (switch-there frame charged))
  where
    w : View
    w = reap (wake v)

    charged : Lives a (charge w)
    charged = charge-Lives (reap-Lives (wake-Lives l))
