-- ===== src/Scheduler/Chain.antt =====
-- The run queue in memory and the list that it stands for.
use ded_os.Base.{
  ℕ, ◌≡◌, refl, ◌≢◌, ap, Bool, true, false, ◌||◌, List, [], ◌∷◌, arith, ◌==◌, if◌then◌else◌,
}
use ded_os.Scheduler.Thread.{Thread}
use ded_os.Scheduler.Loops.{is_ready, is_dead, woken}

abbrev pub Store : Type 0
Store = ℕ → Thread

-- From `p` the `next` pointers lead through the addresses `xs` to NULL.
abbrev pub IsChain : Store → ℕ → List ℕ → Type 0
IsChain m p [] = p ≡ 0
IsChain m p (x ∷ xs) = (p ≡ x) × (x ≢ 0) × IsChain m (m x).next xs

abbrev pub has : ℕ → List ℕ → Bool
has a [] = false
has a (x ∷ xs) = (a == x) || has a xs

abbrev pub Distinct : List ℕ → Type 0
Distinct [] = Unit
Distinct (x ∷ xs) = (has x xs ≡ false) × Distinct xs

-- A chain depends only on the `next` fields of its own threads.
pub IsChain-frame :
    (m m' : Store) (p : ℕ) (xs : List ℕ)
    → IsChain m p xs
    → ((a : ℕ) → has a xs ≡ true → (m' a).next ≡ (m a).next)
    → IsChain m' p xs
IsChain-frame m m' p [] c same = c
IsChain-frame m m' p (x ∷ xs) (e, ne, c) same =
    (e, ne, rw (same x (ground arith)) (IsChain-frame m m' _ xs c (λ a h. same a (ground arith))))

-- What a thread is, apart from its place in the queue.
abbrev pub body : Thread → Thread
body t = record t { next = 0 }

-- The queue after `woken`, `reaped` and the removal of the first ready thread.
unfoldable pub wake_all : ℕ → List ℕ → Store → Store
wake_all now xs m p = if has p xs then woken now (m p) else m p

unfoldable pub alive : Store → List ℕ → List ℕ
alive m [] = []
alive m (x ∷ xs) = if is_dead (m x).state then alive m xs else x ∷ alive m xs

unfoldable pub first_ready : Store → List ℕ → ℕ
first_ready m [] = 0
first_ready m (x ∷ xs) = if is_ready (m x).state then x else first_ready m xs

unfoldable pub without_first_ready : Store → List ℕ → List ℕ
without_first_ready m [] = []
without_first_ready m (x ∷ xs) = if is_ready (m x).state then xs else x ∷ without_first_ready m xs

-- What `thread_destroy` frees of the dead threads, in the order of the queue.
unfoldable pub destroyed : Store → List ℕ → List ℕ
destroyed m [] = []
destroyed m (x ∷ xs) =
    if is_dead (m x).state then (m x).stack ∷ x ∷ destroyed m xs else destroyed m xs

-- The lists that the walks keep depend only on the bodies of the threads.
module _ (m m' : Store) (same : (a : ℕ) → body (m' a) ≡ body (m a)) where
  pub state_of_body : (a : ℕ) → (m' a).state ≡ (m a).state
  state_of_body a = ap (λ (t : Thread). t.state) (same a)

  pub alive-body : (xs : List ℕ) → alive m' xs ≡ alive m xs
  unfolding alive
  alive-body [] = refl
  alive-body (x ∷ xs) = rw (alive-body xs, state_of_body x)

  pub destroyed-body : (xs : List ℕ) → destroyed m' xs ≡ destroyed m xs
  unfolding destroyed
  destroyed-body [] = refl
  destroyed-body (x ∷ xs) =
      rw (destroyed-body xs, state_of_body x, ap (λ (t : Thread). t.stack) (same x))

  pub first_ready-body : (xs : List ℕ) → first_ready m' xs ≡ first_ready m xs
  unfolding first_ready
  first_ready-body [] = refl
  first_ready-body (x ∷ xs) = rw (first_ready-body xs, state_of_body x)

  pub without_first_ready-body :
      (xs : List ℕ) → without_first_ready m' xs ≡ without_first_ready m xs
  unfolding without_first_ready
  without_first_ready-body [] = refl
  without_first_ready-body (x ∷ xs) = rw (without_first_ready-body xs, state_of_body x)
