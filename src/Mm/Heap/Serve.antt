-- ===== src/Mm/Heap/Serve.antt =====
-- The walk of `kmalloc` over the slabs of a cache, kernel/src/mm/heap.c: it takes the first free
-- object, in a new slab if there is none.
use mathlib.Core.Path.{subst}
use ded_os.Base.{
  ℕ, zero, suc, ◌+◌, ◌%◌, ◌≤◌, ◌<◌, ◌≡◌, refl, ◌≢◌, sym, ◌∙◌, ap, ◌⊎◌, inl, inr, none, some, List,
  [], ◌∷◌, arith, ◌==◌, ==-ne, ==_iff, Bool-cases, true, false, if_true, if_false,
}
use ded_os.Base.Memory.{update, update_self, update_ne}
use ded_os.Mm.Vmm.Frames.{Frames}
use ded_os.Mm.Heap.{Heap, store, pop_object, extend, take_object, create_slab}
use ded_os.Mm.Heap.Lists.{row, Absent, Linked}
use ded_os.Mm.Heap.Inv.{Slabs, FreeLists, Slot, IsHeap, pages_apart}
use ded_os.Mm.Heap.Stock.{Ends, Ends-next, Stocked, kept-Stocked, more-Stocked, linked-Stocked}
use ded_os.Mm.Heap.Objects.{free_list-top, top-IsSlab, pop_object-IsHeap, link-IsHeap}
use ded_os.Mm.Heap.Slab.{num_objs, some_object}
use ded_os.Mm.Heap.Grow.{create_slab-Grown}

-- A slab with no free object sends the walk to the next one.
take_step :
    {P : Type 0} (alloc : P → P × ℕ) (fuel size slab : ℕ) (s : Heap P)
    → slab ≢ 0
    → s.mem (slab + 8) ≡ 0
    → take_object alloc (suc fuel) size slab s
      ≡ take_object alloc fuel size
          ((extend alloc size slab s).mem (slab + 16))
          (extend alloc size slab s)
unfolding take_object
take_step alloc fuel size slab s ne full =
    if_false _ _ _ (==-ne slab 0 ne) ∙ if_true _ _ _ ((==_iff (s.mem (slab + 8)) 0).1 full)

-- The object `obj` was the first on the list of the slab `slab`, which is a slab of the heap before or
-- a new one, and is not on a list any more.
pub record Taken {P : Type 0} {alloc : P → P × ℕ} (f : Frames P alloc) (own : Slabs)
    (free : FreeLists) (size : ℕ) (s s' : Heap P) (obj : ℕ) : Type 0 where
  pub own' : Slabs
  pub free' : FreeLists
  pub slab : ℕ
  pub rest : List ℕ
  pub keeps : (x z : ℕ) → own x ≡ some z → (own' x ≡ some z) × (free' x ≡ free x)
  pub at : own' slab ≡ some size
  pub top : free' slab ≡ obj ∷ rest
  pub slot : Slot size slab obj
  pub gone : Absent obj rest
  pub frame : (x z a : ℕ) → own x ≡ some z → x + 24 ≤ a → a < x + 4096 → s'.mem a ≡ s.mem a
  pub left : f.available s.vmm.frames ≤ f.available s'.vmm.frames + 1
  pub stocked : (n : ℕ) → Stocked n own s → Stocked (suc n) own' s'
  pub valid : IsHeap f own' (update free' slab rest) s'

-- The walk ends and gives such an object.
abbrev pub Gives :
    {P : Type 0} {alloc : P → P × ℕ}
    → Frames P alloc
    → ℕ
    → Slabs
    → FreeLists
    → Heap P
    → ℕ
    → ℕ
    → Type 0
Gives {P} {alloc} f size own free s fuel slab =
    (s' : Heap P) × (o : ℕ) × (take_object alloc fuel size slab s ≡ some (s', o))
    × Taken f own free size s s' o

module _ {P : Type 0} {alloc : P → P × ℕ} (f : Frames P alloc) (size : ℕ) where
  pop_object-Stocked :
      {own : Slabs} {free : FreeLists} {s : Heap P} {n : ℕ} (b : ℕ)
      → IsHeap f own free s
      → own b ≡ some size
      → Stocked n own s
      → Stocked n own (pop_object b s)
  unfolding pop_object
  pop_object-Stocked {s = s} b h at st =
      kept-Stocked h st _ _ s.vmm (λ x z e. e)
        (λ x z e.
          update_ne s.mem (b + 8) _ (x + 16)
            (λ same. omega (arith, (h.slabs x z e).page, (h.slabs b size at).page)))

  pop_object-frame :
      {own : Slabs} {free : FreeLists} {s : Heap P} (b : ℕ)
      → IsHeap f own free s
      → own b ≡ some size
      → (x z a : ℕ) → own x ≡ some z
      → x + 24 ≤ a
      → a < x + 4096
      → (pop_object b s).mem a ≡ s.mem a
  unfolding pop_object
  pop_object-frame {s = s} b h at x z a e lo hi =
      update_ne s.mem (b + 8) _ a
        (λ same. omega (arith, (h.slabs x z e).page, (h.slabs b size at).page))

  -- The first object of a slab that has one.
  module _ {own : Slabs} {free : FreeLists} {s : Heap P} (slab : ℕ) {o : ℕ} {os : List ℕ}
      (h : IsHeap f own free s) (at : own slab ≡ some size) (top : free slab ≡ o ∷ os) where
    take_here : (fuel : ℕ) → take_object alloc (suc fuel) size slab s ≡ some (pop_object slab s, o)
    unfolding take_object
    take_here fuel =
        let i = top-IsSlab h at top in
        let list = free_list-top h at top in
        if_false _ _ _ (==-ne slab 0 (λ e. omega (arith, i.nonnull)))
        ∙ if_false _ _ _ (==-ne (s.mem (slab + 8)) 0 (λ e. i.list.1 (sym list ∙ e)))
        ∙ ap (λ o. some (pop_object slab s, o)) list

    take_here-Taken : Taken f own free size s (pop_object slab s) o
    take_here-Taken =
        let i = top-IsSlab h at top in
        record {
          own' = own;
          free' = free;
          slab = slab;
          rest = os;
          keeps = λ x z e. (e, refl);
          at = at;
          top = top;
          slot = i.slots.0;
          gone = i.distinct.0;
          frame = λ x z a e lo hi. pop_object-frame slab h at x z a e lo hi;
          left = unfold pop_object in omega arith;
          stocked = λ n st.
              let valid = pop_object-IsHeap h at top in
              more-Stocked valid (pop_object-Stocked slab h at st);
          valid = pop_object-IsHeap h at top;
        }

  module _ (units : size % 32 ≡ 0) (lo : 32 ≤ size) (hi : size ≤ 1024) where
    row_cons : (n b : ℕ) → 0 < n → (o : ℕ) × (os : List ℕ) × (row n size b ≡ o ∷ os)
    unfolding row
    row_cons zero b h = absurd (omega arith)
    row_cons (suc n) b h = (b, row n size (b + size), refl)

    -- Behind the last slab, a new one is made and gives its first object.
    take_new :
        {own : Slabs} {free : FreeLists} {s : Heap P} (fuel slab : ℕ)
        → IsHeap f own free s
        → own slab ≡ some size
        → 0 < f.available s.vmm.frames
        → s.mem (slab + 16) ≡ 0
        → let made = create_slab alloc size s in
          let s1 = store (slab + 16) made.1 made.0 in
          (s' : Heap P) × (o : ℕ) × (take_object alloc (suc fuel) size made.1 s1 ≡ some (s', o))
          × Taken f own free size s s' o
    take_new {own} {free} {s} fuel slab h at left last =
        let b = (create_slab alloc size s).1 in
        let g = create_slab-Grown f h size units lo hi left in
        let own1 = update own b (some size) in
        let free1 = update free b (row (num_objs size) size (b + 24)) in
        let kept : (x z : ℕ) → own x ≡ some z → (own1 x ≡ some z) × (free1 x ≡ free x) =
          λ x z e. keep own free b _ g.fresh x z e in
        let (o, os, cons) = row_cons (num_objs size) (b + 24) (some_object size lo hi) in
        let at1 = update_self own b (some size) in
        let top1 = update_self free b _ ∙ cons in
        let linked = link-IsHeap g.valid (kept slab size at).0 b at1 in
        let i = top-IsSlab linked at1 top1 in
        let apart : (x z : ℕ) → own x ≡ some z → x ≢ b = λ x z e. new_ne own b g.fresh x z e in
        let before : Heap P = (create_slab alloc size s).0 in
        (
          pop_object b (store (slab + 16) b before),
          o,
          take_here b linked at1 top1 fuel,
          record {
            own' = own1;
            free' = free1;
            slab = b;
            rest = os;
            keeps = kept;
            at = at1;
            top = top1;
            slot = i.slots.0;
            gone = i.distinct.0;
            frame = λ x z a e lo hi.
                pop_object-frame b linked at1 x z a (kept x z e).0 lo hi
                ∙ update_ne before.mem (slab + 16) b a
                    (λ same. omega (arith, (h.slabs x z e).page, (h.slabs slab size at).page))
                ∙ g.outside a (
                    pages_apart b x a g.page (h.slabs x z e).page (λ same. apart x z e (sym same))
                      (omega arith) hi);
            left = unfold pop_object in omega (arith, g.fewer);
            stocked = λ n st.
                let last1 : before.mem (slab + 16) ≡ 0 =
                  g.outside (slab + 16) (
                    pages_apart b slab (slab + 16) g.page (h.slabs slab size at).page
                      (λ same. apart slab size at (sym same)) (omega arith) (omega arith))
                  ∙ last in
                pop_object-Stocked b linked at1 (
                  linked-Stocked g.valid (g.stocked n st) slab b last1 g.unlinked
                    (λ same. apart slab size at (sym same)));
            valid = pop_object-IsHeap linked at1 top1;
          },
        )
      where
        new_ne : (own : Slabs) (b : ℕ) → own b ≡ none → (x z : ℕ) → own x ≡ some z → x ≢ b
        new_ne own b fresh x z e same = none_some (sym fresh ∙ sym (ap own same) ∙ e)
          where
            none_some : none ≡ some z → ⊥
            none_some e = cc

        keep :
            (own : Slabs) (free : FreeLists) (b : ℕ) (l : List ℕ)
            → own b ≡ none
            → (x z : ℕ) → own x ≡ some z
            → (update own b (some size) x ≡ some z) × (update free b l x ≡ free x)
        keep own free b l fresh x z e =
            let ne = new_ne own b fresh x z e in
            (update_ne own b (some size) x ne ∙ e, update_ne free b l x ne)

    -- One slab of the walk, where `again` is the walk from the next slab.
    module _ {own : Slabs} {free : FreeLists} {s : Heap P} (n slab : ℕ) (h : IsHeap f own free s)
        (at : own slab ≡ some size) (left : 0 < f.available s.vmm.frames)
        (again : own (s.mem (slab + 16)) ≡ some size
          → Gives f size own free s (suc n) (s.mem (slab + 16))) where
      nonnull : slab ≢ 0
      nonnull e = omega (arith, (h.slabs slab size at).nonnull)

      take_next : s.mem (slab + 8) ≡ 0 → Gives f size own free s (suc (suc n)) slab
      take_next full = next (Bool-cases (s.mem (slab + 16) == 0))
        where
          follow :
              (s1 : Heap P) (p : ℕ)
              → extend alloc size slab s ≡ s1
              → s1.mem (slab + 16) ≡ p
              → take_object alloc (suc (suc n)) size slab s ≡ take_object alloc (suc n) size p s1
          follow s1 p e1 e2 =
              take_step alloc (suc n) size slab s nonnull full
              ∙ ap (λ (t : Heap P). take_object alloc (suc n) size (t.mem (slab + 16)) t) e1
              ∙ ap (λ p. take_object alloc (suc n) size p s1) e2

          owned :
              (s.mem (slab + 16) == 0) ≡ false
              → (s.mem (slab + 16) ≡ 0) ⊎ (own (s.mem (slab + 16)) ≡ some size)
              → own (s.mem (slab + 16)) ≡ some size
          owned more (inl z) = clash (sym more ∙ (==_iff (s.mem (slab + 16)) 0).1 z)
            where
              clash : {A : Type 0} → false ≡ true → A
              clash e = cc
          owned more (inr o) = o

          next :
              ((s.mem (slab + 16) == 0) ≡ true) ⊎ ((s.mem (slab + 16) == 0) ≡ false)
              → Gives f size own free s (suc (suc n)) slab
          next (inl last) =
              let made = create_slab alloc size s in
              let s1 = store (slab + 16) made.1 made.0 in
              let (s', o, runs, t) =
                take_new n slab h at left ((==_iff (s.mem (slab + 16)) 0).0 last) in
              (
                s',
                o,
                follow s1 made.1 (unfold extend in if_true _ _ _ last)
                      (update_self made.0.mem (slab + 16) made.1)
                    ∙ runs,
                t,
              )
          next (inr more) =
              let p = s.mem (slab + 16) in
              let (s', o, runs, t) = again (owned more (h.slabs slab size at).chained) in
              (s', o, follow s p (unfold extend in if_false _ _ _ more) refl ∙ runs, t)

      take_at : (objs : List ℕ) → free slab ≡ objs → Gives f size own free s (suc (suc n)) slab
      take_at (o ∷ os) e =
          (pop_object slab s, o, take_here slab h at e (suc n), take_here-Taken slab h at e)
      take_at [] e =
          take_next (subst (λ l. Linked s.mem (s.mem (slab + 8)) l) e (h.slabs slab size at).list)

    -- With fuel for the slabs of the chain and one round more, the walk gives an object.
    pub take_object-Taken :
        {own : Slabs} {free : FreeLists} {s : Heap P} (n slab : ℕ)
        → IsHeap f own free s
        → own slab ≡ some size
        → Ends s.mem n slab
        → 0 < f.available s.vmm.frames
        → Gives f size own free s (suc n) slab
    take_object-Taken {own} {free} {s} zero slab h at ends left =
        absurd (omega (arith, (h.slabs slab size at).nonnull))
    take_object-Taken {own} {free} {s} (suc n) slab h at ends left =
        take_at n slab h at left
          (λ at'.
            take_object-Taken n (s.mem (slab + 16)) h at'
              (Ends-next s.mem n slab (λ e. omega (arith, (h.slabs slab size at).nonnull)) ends)
              left)
          (free slab) refl
