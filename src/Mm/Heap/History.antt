-- ===== src/Mm/Heap/History.antt =====
-- Histories of the heap, kernel/src/mm/heap.c: blocks are taken, written and given back in any order.
use ded_os.Base.{
  ℕ, ◌+◌, ◌%◌, ◌^◌, ◌≤◌, ◌<◌, ◌≡◌, ◌≢◌, sym, ◌∙◌, ap, ◌⊎◌, inl, inr, some, List, [], ◌∷◌, arith,
  All, ◌==◌, ==_iff, Bool-cases, true, false,
}
use mathlib.Core.Path.{subst}
use ded_os.Base.Memory.{update, update_self, update_ne}
use ded_os.Mm.Vmm.Frames.{Frames}
use ded_os.Mm.Heap.{Heap, magic_slab}
use ded_os.Mm.Heap.Lists.{Absent}
use ded_os.Mm.Heap.Inv.{Slabs, FreeLists, Slot, IsSlab, IsHeap, pages_apart}
use ded_os.Mm.Heap.Blocks.{Slot-apart}
use ded_os.Mm.Heap.Kmalloc.{Served}

-- A block that the caller holds.
pub record Block : Type 0 where
  pub ptr : ℕ
  pub size : ℕ

-- The object behind a block: it is no free object, and its header has the mark.
pub record Live (own : Slabs) (free : FreeLists) (m : ℕ → ℕ) (b : Block) : Type 0 where
  pub obj_size : ℕ
  pub slab : ℕ
  pub obj : ℕ
  pub at : own slab ≡ some obj_size
  pub slot : Slot obj_size slab obj
  pub taken : Absent obj (free slab)
  pub block : b.ptr ≡ obj + 24
  pub fits : b.size + 24 ≤ obj_size
  pub tagged : m obj % 2 ^ 32 ≡ magic_slab

abbrev pub Disjoint : Block → Block → Type 0
Disjoint b c = (b.ptr + b.size ≤ c.ptr) ⊎ (c.ptr + c.size ≤ b.ptr)

abbrev pub AllDisjoint : List Block → Type 0
AllDisjoint [] = Unit {0}
AllDisjoint (b ∷ bs) = All (Disjoint b) bs × AllDisjoint bs

-- Objects of one slab or of two lie apart.
pub objects_apart :
    {m : ℕ → ℕ} {own : Slabs} (s t o u y z : ℕ) {l k : List ℕ}
    → IsSlab m own s y l
    → IsSlab m own t z k
    → own s ≡ some y
    → own t ≡ some z
    → Slot y s o
    → Slot z t u
    → o ≢ u
    → (o + y ≤ u) ⊎ (u + z ≤ o)
objects_apart {own = own} s t o u y z i j es et p q ne = elim (Bool-cases (s == t)) [
  | inl same ↦
      let eq : t ≡ s = sym ((==_iff s t).0 same) in
      let size_eq : z ≡ y = some_eq (sym et ∙ ap own eq ∙ es) in
      let q' : Slot y s u = subst (λ z. Slot z s u) size_eq (subst (λ t. Slot z t u) eq q) in
      turn size_eq (Slot-apart y s o u p q' ne)
  | inr apart ↦
      let far =
        pages_apart t s o j.page i.page (λ e. clash (sym ((==_iff s t).1 (sym e)) ∙ apart))
          (omega (arith, p.at)) (omega (arith, p.at, p.inside, i.some_size)) in
      sides far
]
  where
    some_eq : {x y : ℕ} → some x ≡ some y → x ≡ y
    some_eq e = cc

    clash : {A : Type 0} → true ≡ false → A
    clash e = cc

    turn : z ≡ y → (u + y ≤ o) ⊎ (o + y ≤ u) → (o + y ≤ u) ⊎ (u + z ≤ o)
    turn e (inl h) = inr (omega (arith, e))
    turn e (inr h) = inl h

    sides : (o < t) ⊎ (t + 4096 ≤ o) → (o + y ≤ u) ⊎ (u + z ≤ o)
    sides (inl h) = inl (omega (arith, p.at, p.inside, i.page, j.page, q.at))
    sides (inr h) = inr (omega (arith, q.at, q.inside))

module _ {P : Type 0} {alloc : P → P × ℕ} {f : Frames P alloc} {own : Slabs} {free : FreeLists}
    {s : Heap P} (h : IsHeap f own free s) where
  -- Blocks of different objects do not overlap.
  pub Live-Disjoint :
      {b c : Block} (lb : Live own free s.mem b) (lc : Live own free s.mem c)
      → b.ptr ≢ c.ptr
      → Disjoint b c
  Live-Disjoint {b} {c} lb lc ne = turn (
      objects_apart lb.slab lc.slab lb.obj lc.obj lb.obj_size lc.obj_size
        (h.slabs lb.slab lb.obj_size lb.at) (h.slabs lc.slab lc.obj_size lc.at) lb.at lc.at lb.slot
        lc.slot (λ e. ne (lb.block ∙ ap (λ o. o + 24) e ∙ sym lc.block)))
    where
      turn : (lb.obj + lb.obj_size ≤ lc.obj) ⊎ (lc.obj + lc.obj_size ≤ lb.obj) → Disjoint b c
      turn (inl k) = inl (omega (arith, lb.block, lb.fits, lc.block))
      turn (inr k) = inr (omega (arith, lb.block, lc.fits, lc.block))

  -- A block that was held before another is taken is still held, and is another one.
  pub Served-Live :
      {b : Block} {size ptr : ℕ} {s' : Heap P} (served : Served f own free size s s' ptr)
      → Live own free s.mem b
      → Live served.own' (update served.free' served.slab served.rest) s'.mem b × (b.ptr ≢ ptr)
  Served-Live {b} {size} {ptr} {s'} v l =
      let kept = v.keeps l.slab l.obj_size l.at in
      let (absent, ne) = still kept.0 kept.1 in
      (
        record {
          obj_size = l.obj_size;
          slab = l.slab;
          obj = l.obj;
          at = kept.0;
          slot = l.slot;
          taken = absent;
          block = l.block;
          fits = l.fits;
          tagged =
              ap (λ w. w % 2 ^ 32)
                (v.frame l.slab l.obj_size l.obj l.at (omega (arith, l.slot.at))
                  (omega
                    (arith, l.slot.at, l.slot.inside, (h.slabs l.slab l.obj_size l.at).some_size))
                  (apart kept.0 ne))
              ∙ l.tagged;
        },
        (λ e. ne (omega (arith, l.block, v.block))),
      )
    where
      free'' : FreeLists
      free'' = update v.free' v.slab v.rest

      clash : {A : Type 0} → true ≡ false → A
      clash e = cc

      still :
          v.own' l.slab ≡ some l.obj_size
          → v.free' l.slab ≡ free l.slab
          → Absent l.obj (free'' l.slab) × (l.obj ≢ v.obj)
      still at same = elim (Bool-cases (l.slab == v.slab)) [
        | inl one ↦
            let eq : l.slab ≡ v.slab = (==_iff l.slab v.slab).0 one in
            let list : free l.slab ≡ v.obj ∷ v.rest = sym same ∙ ap v.free' eq ∙ v.top in
            let both : Absent l.obj (v.obj ∷ v.rest) = subst (Absent l.obj) list l.taken in
            (
              subst (Absent l.obj) (sym (ap free'' eq ∙ update_self v.free' v.slab v.rest)) both.1,
              both.0,
            )
        | inr two ↦
            let ne : l.slab ≢ v.slab = λ e. clash (sym ((==_iff l.slab v.slab).1 e) ∙ two) in
            (
              subst (Absent l.obj) (sym (update_ne v.free' v.slab v.rest l.slab ne ∙ same)) l.taken,
              (λ e. ne (
                  omega (
                    arith,
                    e,
                    l.slot.at,
                    l.slot.inside,
                    v.slot.at,
                    v.slot.inside,
                    (v.valid.slabs l.slab l.obj_size at).page,
                    (v.valid.slabs v.slab v.obj_size v.at).page,
                    (v.valid.slabs l.slab l.obj_size at).some_size,
                    (v.valid.slabs v.slab v.obj_size v.at).some_size,
                  ))),
            )
      ]

      apart :
          v.own' l.slab ≡ some l.obj_size
          → l.obj ≢ v.obj
          → (l.obj < v.obj) ⊎ (v.obj + v.obj_size ≤ l.obj)
      apart at ne = side (
          objects_apart l.slab v.slab l.obj v.obj l.obj_size v.obj_size
            (v.valid.slabs l.slab l.obj_size at) (v.valid.slabs v.slab v.obj_size v.at) at v.at
            l.slot v.slot ne)
        where
          side :
              (l.obj + l.obj_size ≤ v.obj) ⊎ (v.obj + v.obj_size ≤ l.obj)
              → (l.obj < v.obj) ⊎ (v.obj + v.obj_size ≤ l.obj)
          side (inl k) = inl (omega (arith, (v.valid.slabs l.slab l.obj_size at).some_size))
          side (inr k) = inr k
