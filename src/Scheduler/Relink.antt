-- ===== src/Scheduler/Relink.antt =====
-- What the walks over the run queue may do to it: links change, and nothing else.
use ded_os.Base.{
  ℕ, ◌≡◌, refl, ◌≢◌, ◌∙◌, ap, inl, inr, false, List, ◌∷◌, arith, ◌==◌, ==_iff, ==-ne, if◌then◌else◌,
  Bool-cases,
}
use ded_os.Base.Memory.{update, update_self, update_ne}
use ded_os.Scheduler.Thread.{Thread, Sched}
use ded_os.Scheduler.Loops.{unlink}
use ded_os.Scheduler.Chain.{Store, IsChain, has, body}

-- Where the queue goes on behind `prev`: at its `next`, or at the head if `prev` is NULL.
abbrev pub follows : ℕ → Store → ℕ → ℕ
follows rq m prev = if prev == 0 then rq else (m prev).next

-- At most `prev` and the head changed, and only in where they lead.
pub record Relinked (s : Sched) (prev : ℕ) (rq : ℕ) (m : Store) : Type 0 where
  pub outside : (a : ℕ) → a ≢ prev → m a ≡ s.threads a
  pub bodies : (a : ℕ) → body (m a) ≡ body (s.threads a)
  pub queue : prev ≢ 0 → rq ≡ s.run_queue

pub unlink-Relinked :
    (prev next : ℕ) (s : Sched)
    → (rq : ℕ) × (m : Store) × (unlink prev next s ≡ record s { run_queue = rq; threads = m })
      × (follows rq m prev ≡ next)
      × Relinked s prev rq m
unfolding unlink
unlink-Relinked prev next s = elim (Bool-cases (prev == 0)) [
  | inl e ↦ (
    next,
    s.threads,
    rw e,
    rw e,
    record {
      outside = λ a h. refl;
      bodies = λ a. refl;
      queue = λ ne. absurd (ne ((==_iff _ _).0 e));
    },
  )
  | inr e ↦ (
    s.run_queue,
    update s.threads prev (record (s.threads prev) { next = next }),
    rw e,
    rw (e, update_self),
    record { outside = λ a h. update_ne _ _ _ a h; bodies = bodies; queue = λ ne. refl },
  )
]
  where
    bodies :
        (a : ℕ)
        → body (update s.threads prev (record (s.threads prev) { next = next }) a)
          ≡ body (s.threads a)
    bodies a = elim (Bool-cases (a == prev)) [
      | inl e ↦ let e' : a ≡ prev = (==_iff a prev).0 e in rw (e', update_self)
      | inr e ↦ ap body (update_ne s.threads prev _ a (λ h. ground (arith, h)))
    ]

-- Behind `prev`, where the queue was `xs`, it is now `ys`.
pub record Rebuilt (s : Sched) (prev : ℕ) (xs ys : List ℕ) (rq : ℕ) (m : Store) : Type 0 where
  pub chain : IsChain m (follows rq m prev) ys
  pub outside : (a : ℕ) → has a xs ≡ false → a ≢ prev → m a ≡ s.threads a
  pub bodies : (a : ℕ) → body (m a) ≡ body (s.threads a)
  pub queue : prev ≢ 0 → rq ≡ s.run_queue

-- What a walk did behind a thread that it passed by, seen from in front of that thread.
pub Rebuilt-cons :
    (s : Sched) (prev x : ℕ) (xs ys : List ℕ) (rq : ℕ) (m : Store)
    → x ≢ 0
    → follows s.run_queue s.threads prev ≡ x
    → has prev (x ∷ xs) ≡ false
    → Rebuilt s x xs ys rq m
    → Rebuilt s prev (x ∷ xs) (x ∷ ys) rq m
Rebuilt-cons s prev x xs ys rq m ne link out r = record {
  chain = (linked, ne, behind);
  outside = λ a h n. r.outside a (ground arith) (ground arith);
  bodies = r.bodies;
  queue = λ n. r.queue ne;
}
  where
    behind : IsChain m (m x).next ys
    behind = rw (==-ne x 0 ne) at r.chain

    linked : follows rq m prev ≡ x
    linked = elim (Bool-cases (prev == 0)) [
      | inl e ↦ rw e (r.queue ne ∙ (rw e at link))
      | inr e ↦ rw e (
          ap (λ (t : Thread). t.next) (r.outside prev (ground arith) (ground arith))
          ∙ (rw e at link))
    ]
