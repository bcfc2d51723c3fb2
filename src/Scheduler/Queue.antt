-- ===== src/Scheduler/Queue.antt =====
-- What reaping and picking leave of the list of a run queue.
use ded_os.Base.{
  ℕ, ◌≤◌, ◌≡◌, refl, ◌≢◌, inl, inr, true, false, List, [], ◌∷◌, arith, Bool-cases, length,
}
use ded_os.Scheduler.Loops.{is_ready, is_dead}
use ded_os.Scheduler.Chain.{Store, has, Distinct, alive, first_ready, without_first_ready}

-- Taking threads out of a list.
pub has-alive : (m : Store) (a : ℕ) (xs : List ℕ) → has a xs ≡ false → has a (alive m xs) ≡ false
unfolding alive
has-alive m a [] h = refl
has-alive m a (x ∷ xs) h = ground (arith, has-alive m a xs)

pub Distinct-alive : (m : Store) (xs : List ℕ) → Distinct xs → Distinct (alive m xs)
unfolding alive
Distinct-alive m [] d = tt
Distinct-alive m (x ∷ xs) d = elim (Bool-cases (is_dead (m x).state)) [
  | inl e ↦ rw e (Distinct-alive m xs d.1)
  | inr e ↦ rw e (has-alive m x xs d.0, Distinct-alive m xs d.1)
]

pub length-alive : (m : Store) (xs : List ℕ) → length (alive m xs) ≤ length xs
unfolding alive
length-alive m [] = omega arith
length-alive m (x ∷ xs) = ground (arith, length-alive m xs)

pub has-without :
    (m : Store) (a : ℕ) (xs : List ℕ) → has a xs ≡ false → has a (without_first_ready m xs) ≡ false
unfolding without_first_ready
has-without m a [] h = refl
has-without m a (x ∷ xs) h = ground (arith, has-without m a xs)

pub Distinct-without : (m : Store) (xs : List ℕ) → Distinct xs → Distinct (without_first_ready m xs)
unfolding without_first_ready
Distinct-without m [] d = tt
Distinct-without m (x ∷ xs) d = elim (Bool-cases (is_ready (m x).state)) [
  | inl e ↦ rw e d.1
  | inr e ↦ rw e (has-without m x xs d.0, Distinct-without m xs d.1)
]

-- The thread that is picked leaves the queue, and was in it.
pub first_ready-in :
    (m : Store) (xs : List ℕ) → first_ready m xs ≢ 0 → has (first_ready m xs) xs ≡ true
unfolding first_ready
first_ready-in m [] ne = absurd (ne refl)
first_ready-in m (x ∷ xs) ne = ground (arith, first_ready-in m xs)

pub first_ready-out :
    (m : Store) (xs : List ℕ)
    → Distinct xs
    → first_ready m xs ≢ 0
    → has (first_ready m xs) (without_first_ready m xs) ≡ false
unfolding first_ready without_first_ready
first_ready-out m [] d ne = refl
first_ready-out m (x ∷ xs) d ne = ground (arith, first_ready-out m xs d.1, first_ready-in m xs, d)

pub length-without : (m : Store) (xs : List ℕ) → length (without_first_ready m xs) ≤ length xs
unfolding without_first_ready
length-without m [] = omega arith
length-without m (x ∷ xs) = ground (arith, length-without m xs)
