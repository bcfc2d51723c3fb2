-- ===== src/Mm/Heap/Slab.antt =====
-- The objects of a slab of kernel/src/mm/heap.c: how many fit a page, and what leaves a slab as it is.
use mathlib.Core.Path.{subst}
use native.Mathlib.Nat.{div-add-mod, mod-lt, mul_comm}
use ded_os.Base.{
  ℕ, zero, suc, ◌+◌, ◌*◌, ◌/◌, ◌%◌, ◌≤◌, ◌<◌, ◌≡◌, refl, ◌∙◌, ◌⊎◌, inl, inr, some, List, [], ◌∷◌,
  arith, All,
}
use ded_os.Mm.Heap.Lists.{Linked-agree, row}
use ded_os.Mm.Heap.Inv.{Slabs, Slot, Slot-Placed, IsSlab}

pub slots-agree :
    (m m' : ℕ → ℕ) (size b : ℕ) (objs : List ℕ)
    → size % 32 ≡ 0
    → 32 ≤ size
    → b % 4096 ≡ 0
    → ((a : ℕ) → b ≤ a → a < b + 4096 → m' a ≡ m a)
    → All (Slot size b) objs
    → All (λ o. m' o ≡ m o) objs
slots-agree m m' size b [] u z p same all = tt
slots-agree m m' size b (o ∷ os) u z p same (slot, all) =
    let placed = Slot-Placed size b o u z p slot in
    (
      same o (omega (arith, placed.after)) (omega (arith, placed.within)),
      slots-agree m m' size b os u z p same all,
    )

-- A slab whose page is unchanged stays one, also when more pages are slabs.
pub IsSlab-agree :
    {m : ℕ → ℕ} {own : Slabs} {b size : ℕ} {objs : List ℕ} (m' : ℕ → ℕ) (own' : Slabs)
    → ((a : ℕ) → b ≤ a → a < b + 4096 → m' a ≡ m a)
    → ((x z : ℕ) → own x ≡ some z → own' x ≡ some z)
    → IsSlab m own b size objs
    → IsSlab m' own' b size objs
IsSlab-agree {m} {own} {b} {size} {objs} m' own' same more i = record {
  units = i.units;
  some_size = i.some_size;
  page = i.page;
  nonnull = i.nonnull;
  headed = same b (omega arith) (omega arith) ∙ i.headed;
  chained = chain i.chained;
  slots = i.slots;
  distinct = i.distinct;
  list = rw (same (b + 8) (omega arith) (omega arith)) (
      Linked-agree m m' (m (b + 8)) objs
        (slots-agree m m' size b objs i.units i.some_size i.page same i.slots) i.list);
}
  where
    chain :
        (m (b + 16) ≡ 0) ⊎ (own (m (b + 16)) ≡ some size)
        → (m' (b + 16) ≡ 0) ⊎ (own' (m' (b + 16)) ≡ some size)
    chain (inl e) = inl (same (b + 16) (omega arith) (omega arith) ∙ e)
    chain (inr e) = inr (rw (same (b + 16) (omega arith) (omega arith)) (more (m (b + 16)) size e))

pub row-slots :
    (n k size b : ℕ)
    → 24 + (k + n) * size ≤ 4096
    → All (Slot size b) (row n size (b + 24 + k * size))
unfolding row
row-slots zero k size b h = tt
row-slots (suc n) k size b h = (
  record { index = k; at = refl; inside = grind arith },
  subst (λ c. All (Slot size b) (row n size c)) {x = b + 24 + suc k * size} (grind arith)
      (row-slots n (suc k) size b (grind arith)),
)

-- The number of objects of a slab.
abbrev pub num_objs : ℕ → ℕ
num_objs size = 4072 / size

pub objects_fit : (size : ℕ) → 32 ≤ size → num_objs size * size ≤ 4072
objects_fit size h = omega (arith, div-add-mod 4072 size, mul_comm (num_objs size) size)

pub some_object : (size : ℕ) → 32 ≤ size → size ≤ 1024 → 0 < num_objs size
some_object size lo hi =
    pos (num_objs size) (div-add-mod 4072 size) (mod-lt 4072 {m = size} (omega arith))
  where
    pos : (n : ℕ) → size * n + 4072 % size ≡ 4072 → 4072 % size < size → 0 < n
    pos zero e l = absurd (omega arith)
    pos (suc n) e l = omega arith
