-- ===== src/Scheduler/Walks.antt =====
-- The walks over the run queue against the list that it stands for: each ends with enough fuel.
use mathlib.Core.Path.{fun_ext}
use ded_os.Base.{
  ℕ, zero, suc, ◌<◌, ◌≡◌, refl, ◌≢◌, sym, ◌∙◌, ap, inl, inr, false, ◌||◌, some, List, [], ◌∷◌,
  arith, ◌==◌, ==_iff, ==-ne, ==_self, if◌then◌else◌, Bool-cases, length,
}
use ded_os.Base.Memory.{update}
use ded_os.Scheduler.Thread.{Thread, Sched}
use ded_os.Scheduler.Loops.{woken, set_thread, wake_loop}
use ded_os.Scheduler.Chain.{Store, IsChain, IsChain-frame, has, Distinct, wake_all}

woken-next : (now : ℕ) (t : Thread) → (woken now t).next ≡ t.next
woken-next now t = ground arith

-- Waking the first thread and then the others is waking all of them.
wake_all-cons :
    (now x : ℕ) (xs : List ℕ) (m : Store)
    → has x xs ≡ false
    → wake_all now xs (update m x (woken now (m x))) ≡ wake_all now (x ∷ xs) m
unfolding wake_all update
wake_all-cons now x xs m out = fun_ext λ p. at p
  where
    at :
        (p : ℕ)
        → (if has p xs
            then woken now (if p == x then woken now (m x) else m p)
            else (if p == x then woken now (m x) else m p))
          ≡ (if (p == x) || has p xs then woken now (m p) else m p)
    at p = elim (Bool-cases (p == x)) [
      | inl e ↦ let e' : p ≡ x = (==_iff p x).0 e in rw (e', out, ==_self x)
      | inr e ↦ rw e
    ]

update-woken-next :
    (now x : ℕ) (m : Store) (p : ℕ) → (update m x (woken now (m x)) p).next ≡ (m p).next
unfolding update
update-woken-next now x m p = ground arith

wake_loop-null : (k : ℕ) (s : Sched) → wake_loop (suc k) 0 s ≡ some s
unfolding wake_loop
wake_loop-null k s = refl

wake_loop-cons :
    (k x : ℕ) (s : Sched)
    → x ≢ 0
    → wake_loop (suc k) x s
      ≡ wake_loop k (s.threads x).next (set_thread x (woken s.timer_ticks (s.threads x)) s)
unfolding wake_loop
wake_loop-cons k x s ne =
    rw (==-ne x 0 ne, wake_loop)
      (ap (λ p. wake_loop k p (set_thread x (woken s.timer_ticks (s.threads x)) s))
        (update-woken-next s.timer_ticks x s.threads x))

wake_all-nil : (now : ℕ) (m : Store) → wake_all now [] m ≡ m
unfolding wake_all
wake_all-nil now m = refl

pub wake_loop-wake_all :
    (k : ℕ) (xs : List ℕ) (t : ℕ) (s : Sched)
    → IsChain s.threads t xs
    → Distinct xs
    → length xs < k
    → wake_loop k t s ≡ some (record s { threads = wake_all s.timer_ticks xs s.threads })
wake_loop-wake_all zero xs t s c d h = absurd (omega arith)
wake_loop-wake_all (suc k) [] t s c d h =
    rw (c, wake_loop-null)
      (ap (λ (m : Store). some (record s { threads = m }))
        (sym (wake_all-nil s.timer_ticks s.threads)))
wake_loop-wake_all (suc k) (x ∷ xs) t s (e, ne, c) d h =
    let now = s.timer_ticks in
    let s' = set_thread x (woken now (s.threads x)) s in
    let c' =
      IsChain-frame s.threads s'.threads _ xs c (λ a _. update-woken-next now x s.threads a) in
    let ih = wake_loop-wake_all k xs _ s' c' d.1 (omega arith) in
    rw e (
      wake_loop-cons k x s ne
      ∙ ih
      ∙ ap (λ (m : Store). some (record s { threads = m })) (wake_all-cons now x xs s.threads d.0))
