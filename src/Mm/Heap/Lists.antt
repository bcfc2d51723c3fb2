-- ===== src/Mm/Heap/Lists.antt =====
-- The free list of a slab in memory, kernel/src/mm/heap.c: how writes change it, and the list that
-- `create_slab` links.
use ded_os.Base.{ℕ, zero, suc, ◌+◌, ◌*◌, ◌<◌, ◌≡◌, refl, ◌≢◌, sym, ◌∙◌, List, [], ◌∷◌, arith, All}
use ded_os.Base.Memory.{update, update_self, update_ne}
use ded_os.Mm.Heap.{link_objects}

-- The objects linked from `p` on.
abbrev pub Linked : (ℕ → ℕ) → ℕ → List ℕ → Type 0
Linked m p [] = p ≡ 0
Linked m p (o ∷ os) = (p ≡ o) × (o ≢ 0) × Linked m (m o) os

abbrev pub Absent : ℕ → List ℕ → Type 0
Absent a [] = Unit {0}
Absent a (o ∷ os) = (a ≢ o) × Absent a os

abbrev pub Distinct : List ℕ → Type 0
Distinct [] = Unit {0}
Distinct (o ∷ os) = Absent o os × Distinct os

-- Memories that agree on the objects hold the same list.
pub Linked-agree :
    (m m' : ℕ → ℕ) (p : ℕ) (os : List ℕ) → All (λ o. m' o ≡ m o) os → Linked m p os → Linked m' p os
Linked-agree m m' p [] same l = l
Linked-agree m m' p (o ∷ os) (e, same) (at, some_object, l) =
    (at, some_object, rw e (Linked-agree m m' (m o) os same l))

pub update-agree :
    (m : ℕ → ℕ) (a v : ℕ) (os : List ℕ) → Absent a os → All (λ o. update m a v o ≡ m o) os
update-agree m a v [] n = tt
update-agree m a v (o ∷ os) (n, ns) = (update_ne m a v o (λ e. n (sym e)), update-agree m a v os ns)

pub Linked-update :
    (m : ℕ → ℕ) (a v p : ℕ) (os : List ℕ) → Absent a os → Linked m p os → Linked (update m a v) p os
Linked-update m a v p os n l = Linked-agree m (update m a v) p os (update-agree m a v os n) l

-- The addresses of `n` objects from `current` on.
unfoldable pub row : ℕ → ℕ → ℕ → List ℕ
row zero size current = []
row (suc n) size current = current ∷ row n size (current + size)

pub link_objects-below :
    (n size current : ℕ) (m : ℕ → ℕ) (a : ℕ) → a < current → link_objects n size current m a ≡ m a
unfolding link_objects
link_objects-below zero size current m a h = update_ne m current 0 a (λ e. omega arith)
link_objects-below (suc n) size current m a h =
    link_objects-below n size (current + size) _ a (omega arith)
    ∙ update_ne m current _ a (λ e. omega arith)

pub link_objects-above :
    (n size current : ℕ) (m : ℕ → ℕ) (a : ℕ)
    → current + n * size < a
    → link_objects n size current m a ≡ m a
unfolding link_objects
link_objects-above zero size current m a h = update_ne m current 0 a (λ e. omega arith)
link_objects-above (suc n) size current m a h =
    link_objects-above n size (current + size) _ a (omega arith)
    ∙ update_ne m current _ a (λ e. omega arith)

pub link_objects-Linked :
    (n size current : ℕ) (m : ℕ → ℕ)
    → 0 < size
    → 0 < current
    → Linked (link_objects n size current m) current (row (suc n) size current)
unfolding link_objects row
link_objects-Linked zero size current m hs hc = (refl, (λ e. omega arith), update_self m current 0)
link_objects-Linked (suc n) size current m hs hc = (
  refl,
  (λ e. omega arith),
  let at =
        link_objects-below n size (current + size) (update m current (current + size)) current
          (omega arith)
        ∙ update_self m current (current + size) in
      rw at (link_objects-Linked n size (current + size) _ hs (omega arith)),
)

row-Absent : (n size current a : ℕ) → a < current → Absent a (row n size current)
unfolding row
row-Absent zero size current a h = tt
row-Absent (suc n) size current a h =
    ((λ e. omega arith), row-Absent n size (current + size) a (omega arith))

pub row-Distinct : (n size current : ℕ) → 0 < size → Distinct (row n size current)
unfolding row
row-Distinct zero size current h = tt
row-Distinct (suc n) size current h = (
  row-Absent n size (current + size) current (omega arith),
  row-Distinct n size (current + size) h,
)
