-- ===== src/Scheduler/Reap.antt =====
-- The walk of `scheduler_tick_irq` that takes the dead threads out of the run queue.
use mathlib.Core.List.{append-nil, append_assoc}
use ded_os.Base.{
  ℕ, zero, suc, ◌<◌, ◌≡◌, refl, ◌≢◌, sym, ◌∙◌, ap, inl, inr, true, false, some, List, [], ◌∷◌, ◌++◌,
  arith, ==-ne, Bool-cases, length,
}
use ded_os.Scheduler.Thread.{Thread, Sched}
use ded_os.Scheduler.Loops.{is_dead, unlink, thread_destroy, reap_loop}
use ded_os.Scheduler.Relink.{follows, Relinked, unlink-Relinked, Rebuilt, Rebuilt-cons}
use ded_os.Scheduler.Chain.{
  Store, IsChain, IsChain-frame, has, Distinct, alive, destroyed, alive-body, destroyed-body,
}

-- With fuel `k` the walk behind `prev` ends, and only the dead of `xs` are gone and freed.
abbrev pub Reaps : ℕ → ℕ → ℕ → List ℕ → Sched → Type 0
Reaps k prev t xs s =
    (rq : ℕ) × (m : Store) × (reap_loop k prev t s
      ≡ some (record s { run_queue = rq; threads = m; freed = s.freed ++ destroyed s.threads xs }))
    × Rebuilt s prev xs (alive s.threads xs) rq m

reap_loop-nil :
    (k prev : ℕ) (s : Sched) → follows s.run_queue s.threads prev ≡ 0 → Reaps (suc k) prev 0 [] s
unfolding reap_loop alive destroyed
reap_loop-nil k prev s e = (
  s.run_queue,
  s.threads,
  rw append-nil,
  record { chain = e; outside = λ a h ne. refl; bodies = λ a. refl; queue = λ ne. refl },
)

reap_loop-alive :
    (k prev x : ℕ) (s : Sched)
    → x ≢ 0
    → is_dead (s.threads x).state ≡ false
    → reap_loop (suc k) prev x s ≡ reap_loop k x (s.threads x).next s
unfolding reap_loop
reap_loop-alive k prev x s ne is = rw (==-ne x 0 ne, is, reap_loop)

reap_loop-dead :
    (k prev x : ℕ) (s : Sched)
    → x ≢ 0
    → is_dead (s.threads x).state ≡ true
    → reap_loop (suc k) prev x s
      ≡ reap_loop k prev (s.threads x).next (thread_destroy x (unlink prev (s.threads x).next s))
unfolding reap_loop
reap_loop-dead k prev x s ne is = rw (==-ne x 0 ne, is, reap_loop)

alive-cons :
    (m : Store) (x : ℕ) (xs : List ℕ)
    → is_dead (m x).state ≡ false
    → (alive m (x ∷ xs) ≡ x ∷ alive m xs) × (destroyed m (x ∷ xs) ≡ destroyed m xs)
unfolding alive destroyed
alive-cons m x xs is = (rw is, rw is)

dead-cons :
    (m : Store) (x : ℕ) (xs : List ℕ)
    → is_dead (m x).state ≡ true
    → (alive m (x ∷ xs) ≡ alive m xs) × (destroyed m (x ∷ xs) ≡ (m x).stack ∷ x ∷ destroyed m xs)
unfolding alive destroyed
dead-cons m x xs is = (rw is, rw is)

-- A thread that is not dead stays in the queue, and the walk goes on behind it.
Reaps-alive :
    (k prev x : ℕ) (xs : List ℕ) (s : Sched)
    → x ≢ 0
    → follows s.run_queue s.threads prev ≡ x
    → has prev (x ∷ xs) ≡ false
    → is_dead (s.threads x).state ≡ false
    → Reaps k x (s.threads x).next xs s
    → Reaps (suc k) prev x (x ∷ xs) s
Reaps-alive k prev x xs s ne link out is (rq, m, run, r) = (
  rq,
  m,
  reap_loop-alive k prev x s ne is
      ∙ run
      ∙ ap (λ (l : List ℕ). some (record s { run_queue = rq; threads = m; freed = s.freed ++ l }))
          (sym (alive-cons s.threads x xs is).1),
  rw (alive-cons s.threads x xs is).0
      (Rebuilt-cons s prev x xs (alive s.threads xs) rq m ne link out r),
)

-- The state after a dead thread is unlinked and freed.
freed_state : Sched → ℕ → ℕ → Store → Sched
freed_state s x rq m = record s {
  run_queue = rq;
  threads = m;
  freed = s.freed ++ ((m x).stack ∷ x ∷ []);
}

thread_destroy-eq :
    (s : Sched) (x rq : ℕ) (m : Store)
    → x ≢ 0
    → thread_destroy x (record s { run_queue = rq; threads = m }) ≡ freed_state s x rq m
unfolding thread_destroy freed_state
thread_destroy-eq s x rq m ne = rw (==-ne x 0 ne)

-- A dead thread is unlinked and freed, and the walk goes on behind it from the same `prev`.
Reaps-dead :
    (k prev x : ℕ) (xs : List ℕ) (s : Sched) (rq : ℕ) (m : Store)
    → x ≢ 0
    → has prev (x ∷ xs) ≡ false
    → is_dead (s.threads x).state ≡ true
    → unlink prev (s.threads x).next s ≡ record s { run_queue = rq; threads = m }
    → Relinked s prev rq m
    → Reaps k prev (s.threads x).next xs (freed_state s x rq m)
    → Reaps (suc k) prev x (x ∷ xs) s
unfolding freed_state
Reaps-dead k prev x xs s rq m ne out is cut l (rq', m', run, r) = (
  rq',
  m',
  reap_loop-dead k prev x s ne is
      ∙ ap (λ (s' : Sched). reap_loop k prev (s.threads x).next (thread_destroy x s')) cut
      ∙ ap (reap_loop k prev (s.threads x).next) (thread_destroy-eq s x rq m ne)
      ∙ run
      ∙ ap (λ (l : List ℕ). some (record s { run_queue = rq'; threads = m'; freed = l })) frees,
  record {
    chain = rw ((dead-cons s.threads x xs is).0, ← alive-body s.threads m l.bodies xs) r.chain;
    outside = λ a h n. r.outside a (ground arith) n ∙ l.outside a n;
    bodies = λ a. r.bodies a ∙ l.bodies a;
    queue = λ n. r.queue n ∙ l.queue n;
  },
)
  where
    frees :
        (s.freed ++ ((m x).stack ∷ x ∷ [])) ++ destroyed m xs
        ≡ s.freed ++ destroyed s.threads (x ∷ xs)
    frees = rw (
      (dead-cons s.threads x xs is).1,
      destroyed-body s.threads m l.bodies xs,
      append_assoc,
      ap (λ (t : Thread). t.stack) (l.bodies x),
    )

pub reap_loop-Reaps :
    (k prev t : ℕ) (xs : List ℕ) (s : Sched)
    → IsChain s.threads t xs
    → Distinct xs
    → has prev xs ≡ false
    → follows s.run_queue s.threads prev ≡ t
    → length xs < k
    → Reaps k prev t xs s
reap_loop-Reaps zero prev t xs s c d out link h = absurd (omega arith)
reap_loop-Reaps (suc k) prev t [] s c d out link h = rw c (reap_loop-nil k prev s (link ∙ c))
reap_loop-Reaps (suc k) prev t (x ∷ xs) s (e, ne, c) d out link h =
    rw e (elim (Bool-cases (is_dead (s.threads x).state)) [
      | inr is ↦
          Reaps-alive k prev x xs s ne (link ∙ e) out is (
            reap_loop-Reaps k x (s.threads x).next xs s c d.1 d.0 (rw (==-ne x 0 ne)) (omega arith))
      | inl is ↦
          let (rq, m, cut, link', l) = unlink-Relinked prev (s.threads x).next s in
          Reaps-dead k prev x xs s rq m ne out is cut l (
            reap_loop-Reaps k prev (s.threads x).next xs (freed_state s x rq m)
              (unfold freed_state in
                IsChain-frame s.threads m (s.threads x).next xs c (λ a i.
                  ap (λ (t : Thread). t.next) (l.outside a (λ (e : a ≡ prev). ground arith))))
              d.1 (ground arith) (unfold freed_state in link') (omega arith))
    ])
