-- ===== src/Mm/Heap/Blocks.antt =====
-- The objects of a slab do not overlap: what is written inside an object that is not free leaves the
-- lists of the heap, kernel/src/mm/heap.c, as they are.
use ded_os.Base.{
  ℕ, ◌+◌, ◌*◌, ◌≤◌, ◌<◌, ◌≡◌, ◌≢◌, sym, ◌∙◌, ap, ◌⊎◌, inl, inr, some, List, [], ◌∷◌, arith, All,
  ◌==◌, ==_iff, Bool-cases, true, false,
}
use mathlib.Core.Path.{subst}
use native.Mathlib.Decide.{dec_lt}
use ded_os.Mm.Vmm.Frames.{Frames}
use ded_os.Mm.Heap.{Heap, store}
use ded_os.Mm.Heap.Lists.{Absent}
use ded_os.Mm.Heap.Inv.{Slabs, FreeLists, Slot, Placed, Slot-Placed, IsHeap, Quiet, store-IsHeap}
use ded_os.Mm.Heap.Objects.{other-Quiet}

-- Two objects of a slab are one, or one lies behind the other.
pub Slot-apart :
    (size b o o' : ℕ) → Slot size b o → Slot size b o' → o ≢ o' → (o' + size ≤ o) ⊎ (o + size ≤ o')
Slot-apart size b o o' p q ne = elim (dec_lt p.index q.index) [
  | yes lt ↦ inr (row_le p.index q.index lt p.at q.at)
  | no ge ↦ elim (dec_lt q.index p.index) [
    | yes lt ↦ inl (row_le q.index p.index lt q.at p.at)
    | no le ↦
        let e : p.index ≡ q.index = omega arith in
        absurd (ne (p.at ∙ ap (λ k. b + 24 + k * size) e ∙ sym q.at))
  ]
]
  where
    row_le :
        (k l : ℕ) {x y : ℕ} → k < l → x ≡ b + 24 + k * size → y ≡ b + 24 + l * size → x + size ≤ y
    row_le k l lt ex ey = grind arith

within-Absent :
    (a size b o : ℕ) (objs : List ℕ)
    → Slot size b o
    → o ≤ a
    → a < o + size
    → Absent o objs
    → All (Slot size b) objs
    → Absent a objs
within-Absent a size b o [] slot lo hi new all = tt
within-Absent a size b o (x ∷ xs) slot lo hi (ne, new) (other, all) =
    (away (Slot-apart size b o x slot other ne), within-Absent a size b o xs slot lo hi new all)
  where
    away : (x + size ≤ o) ⊎ (o + size ≤ x) → a ≢ x
    away (inl h) e = omega arith
    away (inr h) e = omega arith

module _ {P : Type 0} {alloc : P → P × ℕ} {f : Frames P alloc} {own : Slabs} {free : FreeLists}
    {s : Heap P} (h : IsHeap f own free s) {b size : ℕ} (at : own b ≡ some size) {o : ℕ}
    (slot : Slot size b o) (new : Absent o (free b)) where
  pub within-Quiet :
      (a : ℕ) → o ≤ a → a < o + size → (c z : ℕ) → own c ≡ some z → Quiet a c (free c)
  within-Quiet a lo hi c z e = elim (Bool-cases (c == b)) [
    | inl same ↦
        subst (λ c. Quiet a c (free c)) (sym ((==_iff c b).0 same))
          (record {
            no_size = λ e. omega (arith, place.after);
            no_list = λ e. omega (arith, place.after);
            no_next = λ e. omega (arith, place.after);
            no_object = within-Absent a size b o (free b) slot lo hi new (h.slabs b size at).slots;
          })
    | inr apart ↦
        other-Quiet h at a (omega (arith, place.after)) (omega (arith, slot.at, slot.inside)) c z e
          (λ e. true_false (sym ((==_iff c b).1 e) ∙ apart))
  ]
    where
      place : Placed b o
      place = let i = h.slabs b size at in Slot-Placed size b o i.units i.some_size i.page slot

      true_false : true ≡ false → ⊥
      true_false e = cc

  -- A write inside an object that is not on the free list keeps the heap's invariant, with the same
  -- slabs and the same free lists.
  pub block-IsHeap : (a v : ℕ) → o ≤ a → a < o + size → IsHeap f own free (store a v s)
  block-IsHeap a v lo hi = store-IsHeap a v (within-Quiet a lo hi) h
