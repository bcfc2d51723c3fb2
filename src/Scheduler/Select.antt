-- ===== src/Scheduler/Select.antt =====
-- The walk of `scheduler_tick_irq` that takes the first ready thread out of the run queue.
use ded_os.Base.{
  ℕ, zero, suc, ◌<◌, ◌≡◌, refl, ◌≢◌, sym, ◌∙◌, ap, inl, inr, Bool, true, false, some, List, [], ◌∷◌,
  arith, ==-ne, if◌then◌else◌, Bool-cases, length,
}
use ded_os.Scheduler.Thread.{Thread, Sched}
use ded_os.Scheduler.Loops.{is_ready, unlink, select_loop}
use ded_os.Scheduler.Relink.{follows, Relinked, unlink-Relinked, Rebuilt, Rebuilt-cons}
use ded_os.Scheduler.Chain.{
  Store, IsChain, IsChain-frame, has, Distinct, first_ready, without_first_ready,
}

-- With fuel `k` the walk ends: it returns the first ready thread of `xs`, and the queue is without it.
abbrev pub Selects : ℕ → ℕ → ℕ → List ℕ → Sched → Type 0
Selects k prev t xs s =
    (rq : ℕ) × (m : Store) × (select_loop k prev t s
      ≡ some (record s { run_queue = rq; threads = m }, first_ready s.threads xs))
    × Rebuilt s prev xs (without_first_ready s.threads xs) rq m

select_loop-nil :
    (k prev : ℕ) (s : Sched) → follows s.run_queue s.threads prev ≡ 0 → Selects (suc k) prev 0 [] s
unfolding select_loop first_ready without_first_ready
select_loop-nil k prev s e = (
  s.run_queue,
  s.threads,
  refl,
  record { chain = e; outside = λ a h ne. refl; bodies = λ a. refl; queue = λ ne. refl },
)

ready-cons :
    (m : Store) (x : ℕ) (xs : List ℕ) (b : Bool)
    → is_ready (m x).state ≡ b
    → (first_ready m (x ∷ xs) ≡ (if b then x else first_ready m xs))
      × (without_first_ready m (x ∷ xs) ≡ (if b then xs else x ∷ without_first_ready m xs))
unfolding first_ready without_first_ready
ready-cons m x xs b is = (rw is, rw is)

Selects-other :
    (k prev x : ℕ) (xs : List ℕ) (s : Sched)
    → x ≢ 0
    → follows s.run_queue s.threads prev ≡ x
    → has prev (x ∷ xs) ≡ false
    → is_ready (s.threads x).state ≡ false
    → Selects k x (s.threads x).next xs s
    → Selects (suc k) prev x (x ∷ xs) s
unfolding select_loop
Selects-other k prev x xs s ne link out is (rq, m, run, r) = (
  rq,
  m,
  rw (==-ne x 0 ne, is, select_loop)
      (run
        ∙ ap (λ (c : ℕ). some (record s { run_queue = rq; threads = m }, c))
            (sym (ready-cons s.threads x xs false is).0)),
  rw (ready-cons s.threads x xs false is).1 (Rebuilt-cons s prev x xs _ rq m ne link out r),
)

Selects-ready :
    (k prev x : ℕ) (xs : List ℕ) (s : Sched) (rq : ℕ) (m : Store)
    → x ≢ 0
    → is_ready (s.threads x).state ≡ true
    → unlink prev (s.threads x).next s ≡ record s { run_queue = rq; threads = m }
    → IsChain m (follows rq m prev) xs
    → Relinked s prev rq m
    → Selects (suc k) prev x (x ∷ xs) s
unfolding select_loop
Selects-ready k prev x xs s rq m ne is cut c l = (
  rq,
  m,
  rw (==-ne x 0 ne, is, select_loop) (rw (cut, (ready-cons s.threads x xs true is).0)),
  rw (ready-cons s.threads x xs true is).1
      (record { chain = c; outside = λ a h n. l.outside a n; bodies = l.bodies; queue = l.queue }),
)

pub select_loop-Selects :
    (k prev t : ℕ) (xs : List ℕ) (s : Sched)
    → IsChain s.threads t xs
    → Distinct xs
    → has prev xs ≡ false
    → follows s.run_queue s.threads prev ≡ t
    → length xs < k
    → Selects k prev t xs s
select_loop-Selects zero prev t xs s c d out link h = absurd (omega arith)
select_loop-Selects (suc k) prev t [] s c d out link h = rw c (select_loop-nil k prev s (link ∙ c))
select_loop-Selects (suc k) prev t (x ∷ xs) s (e, ne, c) d out link h =
    rw e (elim (Bool-cases (is_ready (s.threads x).state)) [
      | inr is ↦ Selects-other k prev x xs s ne (link ∙ e) out is (
          select_loop-Selects k x (s.threads x).next xs s c d.1 d.0 (rw (==-ne x 0 ne))
            (omega arith))
      | inl is ↦
          let (rq, m, cut, link', l) = unlink-Relinked prev (s.threads x).next s in
          Selects-ready k prev x xs s rq m ne is cut
            (rw link' (
              IsChain-frame s.threads m (s.threads x).next xs c (λ a i.
                ap (λ (t : Thread). t.next) (l.outside a (λ (e : a ≡ prev). ground arith)))))
            l
    ])
