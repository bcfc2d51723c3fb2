-- ===== src/Scheduler/Leak.antt =====
-- Only ready and blocked threads wait in the queue, so `scheduler_tick_irq` never finds a dead one
-- there: a thread that exits is dropped when it is switched from, and never freed.
use mathlib.Core.List.{append-nil}
use ded_os.Base.{
  ℕ, ◌≡◌, refl, ◌≢◌, sym, ◌∙◌, ap, inl, inr, Bool, true, false, List, [], ◌∷◌, arith, ◌==◌, ==_iff,
  if_both, Bool-cases, ltb,
}
use ded_os.Base.Memory.{update, update_self, update_ne, update-read}
use ded_os.Scheduler.Thread.{
  Registers, Thread, ThreadState, ready, running, blocked, dead, scheduler_quantum,
}
use ded_os.Scheduler.Loops.{is_dead, woken}
use ded_os.Scheduler.Chain.{Store, has, wake_all, alive, destroyed, without_first_ready}
use ded_os.Scheduler.Sound.{Queued, wake-Queued, reap-Queued, charge-Queued, switch-Queued}
use ded_os.Scheduler.Model.{
  View, Outcome, wake, reap, charge, requeue, leave, set_current, enter, chosen, switch,
  charge_or_switch, tick,
}

-- What may wait in the queue.
abbrev pub waits : ThreadState → Bool
waits ready = true
waits blocked = true
waits _ = false

abbrev pub AllWait : Store → List ℕ → Type 0
AllWait m xs = (a : ℕ) → has a xs ≡ true → waits (m a).state ≡ true

-- Only waiting threads are queued, and `freed` is what has been freed.
pub record Calm (freed : List ℕ) (v : View) : Type 0 where
  pub waiting : AllWait v.threads v.queue
  pub kept : v.freed ≡ freed

alive_of_waits :
    (m : Store) (xs : List ℕ) → AllWait m xs → (alive m xs ≡ xs) × (destroyed m xs ≡ [])
unfolding alive destroyed
alive_of_waits m [] w = (refl, refl)
alive_of_waits m (x ∷ xs) w =
    let (all, none) = alive_of_waits m xs (λ a h. w a (ground arith)) in
    let live : is_dead (m x).state ≡ false = ground (arith, w x) in
    (rw (live, all), rw (live, none))

has-without_in :
    (m : Store) (a : ℕ) (xs : List ℕ) → has a (without_first_ready m xs) ≡ true → has a xs ≡ true
unfolding without_first_ready
has-without_in m a [] h = h
has-without_in m a (x ∷ xs) h = ground (arith, has-without_in m a xs)

woken-waits : (now : ℕ) (t : Thread) → waits t.state ≡ true → waits (woken now t).state ≡ true
woken-waits now t h = ground arith

module _ {freed : List ℕ} {v : View} (c : Calm freed v) where
  wake-Calm : Calm freed (wake v)
  unfolding wake wake_all
  wake-Calm = record {
    waiting = λ a h. rw h (woken-waits v.timer_ticks (v.threads a) (c.waiting a h));
    kept = c.kept;
  }

  -- Nothing is reaped.
  reap-Calm : Calm freed (reap v)
  unfolding reap
  reap-Calm =
      let (all, none) = alive_of_waits v.threads v.queue c.waiting in
      record { waiting = rw all c.waiting; kept = rw (none, append-nil) c.kept }

  charge-Calm : Calm freed (charge v)
  unfolding charge
  charge-Calm =
      if_both (Calm freed) (ltb 0 (v.threads v.current).quantum)
        (record {
          waiting = λ a h.
              update-read (λ (t : Thread). waits t.state) v.threads v.current _ a refl
              ∙ c.waiting a h;
          kept = c.kept;
        })
        c

  requeue-Calm : Calm freed (requeue v)
  unfolding requeue
  requeue-Calm = at (v.threads v.current).state refl
    where
      pushed : waits (v.threads v.current).state ≡ true → AllWait v.threads (v.current ∷ v.queue)
      pushed w a h = elim (Bool-cases (a == v.current)) [
        | inl e ↦ let e' : a ≡ v.current = (==_iff a v.current).0 e in rw e' w
        | inr e ↦ c.waiting a (rw e at h)
      ]

      t : Thread
      t = record (v.threads v.current) { state = ready; quantum = scheduler_quantum }

      again : AllWait (update v.threads v.current t) (v.current ∷ v.queue)
      again a h = elim (Bool-cases (a == v.current)) [
        | inl e ↦
            let e' : a ≡ v.current = (==_iff a v.current).0 e in
            rw e' (ap (λ (t : Thread). waits t.state) (update_self v.threads v.current t))
        | inr e ↦
            ap (λ (t : Thread). waits t.state)
              (update_ne v.threads v.current t a (λ (s : a ≡ v.current). ground arith))
            ∙ c.waiting a (rw e at h)
      ]

      at : (st : ThreadState) → (v.threads v.current).state ≡ st → Calm freed (requeue v)
      at ready e = rw (e, requeue) (record { waiting = pushed (rw e); kept = c.kept })
      at blocked e = rw (e, requeue) (record { waiting = pushed (rw e); kept = c.kept })
      at dead e = rw (e, requeue) c
      at running e = rw (e, requeue) (record { waiting = again; kept = c.kept })

  leave-Calm : (frame : Registers) → Calm freed (leave frame v)
  unfolding leave set_current
  leave-Calm frame = if_both (Calm freed) (v.current == v.idle) c (record {
    waiting = λ a h.
        update-read (λ (t : Thread). waits t.state) (requeue v).threads (requeue v).current _ a refl
        ∙ requeue-Calm.waiting a h;
    kept = requeue-Calm.kept;
  })

true_ne_false : true ≡ false → ⊥
true_ne_false h = cc

pub apart : (a : ℕ) (b : ℕ) (xs : List ℕ) → has a xs ≡ true → has b xs ≡ false → a ≢ b
apart a b xs h out e = true_ne_false (sym (rw e at h) ∙ out)

module _ {freed : List ℕ} {v : View} (c : Calm freed v) (q : Queued v) where
  without_first : View
  without_first = record v { queue = without_first_ready v.threads v.queue }

  rest-Calm : Calm freed without_first
  unfolding without_first
  rest-Calm = record {
    waiting = λ a h. c.waiting a (has-without_in v.threads a v.queue h);
    kept = c.kept;
  }

  -- The next thread is not in the queue any more when it starts to run.
  switch-Calm : (frame : Registers) → Calm freed (switch frame v).0
  unfolding switch enter without_first
  switch-Calm frame =
      let l = leave-Calm rest-Calm frame in
      let v' = leave frame without_first in
      record {
        waiting = λ a h.
            ap (λ (t : Thread). waits t.state)
              (update_ne v'.threads (chosen v) _ a
                (apart a _ _ h (switch-Queued q frame).not_current))
            ∙ l.waiting a h;
        kept = l.kept;
      }

-- A tick keeps the queue calm, and frees nothing.
pub tick-Calm :
    (frame : Registers) {freed : List ℕ} {v : View}
    → Queued v
    → Calm freed v
    → Calm freed (tick frame v).0
unfolding tick charge_or_switch
tick-Calm frame {freed} {v} q c =
    if_both (λ (o : Outcome). Calm freed o.0) v.locked c
      (if_both (λ (o : Outcome). Calm freed o.0)
        (ltb 0 ((charge w).threads (charge w).current).quantum) charged
        (switch-Calm charged (charge-Queued (reap-Queued (wake-Queued q))) frame))
  where
    w : View
    w = reap (wake v)

    charged : Calm freed (charge w)
    charged = charge-Calm (reap-Calm (wake-Calm c))
