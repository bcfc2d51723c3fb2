-- ===== src/Mm/Heap/Objects.antt =====
-- Taking an object off a free list of kernel/src/mm/heap.c, putting one back, and linking a slab
-- behind another.
use mathlib.Core.Path.{subst}
use ded_os.Base.{
  ℕ, ◌+◌, ◌≤◌, ◌<◌, ◌≡◌, ◌≢◌, sym, ◌∙◌, ap, inl, inr, some, List, ◌∷◌, arith, ◌==◌, ==_iff, Bool,
  Bool-cases, true, false,
}
use ded_os.Base.Memory.{update, update_self, update_ne}
use ded_os.Mm.Vmm.Frames.{Frames}
use ded_os.Mm.Heap.{Heap, store, pop_object, push_object}
use ded_os.Mm.Heap.Lists.{Linked, Absent, Linked-update}
use ded_os.Mm.Heap.Inv.{
  Slabs, FreeLists, Slot, Slot-Placed, IsSlab, IsHeap, Quiet, IsSlab-update, far-Quiet, odd-Absent,
  pages_apart,
}

false_ne_true : {A : Type 0} (b : Bool) → b ≡ true → b ≡ false → A
false_ne_true b e h = cc

some_eq : {x y : ℕ} → some x ≡ some y → x ≡ y
some_eq e = cc

-- A change of one slab and its free list keeps the others.
module _ {P : Type 0} {alloc : P → P × ℕ} {f : Frames P alloc} {own : Slabs} {free : FreeLists}
    {s : Heap P} (h : IsHeap f own free s) {b size : ℕ} (at : own b ≡ some size) where
  -- A word of the slab is far from every other slab.
  pub other-Quiet :
      (a : ℕ) → b ≤ a → a < b + 4096 → (c z : ℕ) → own c ≡ some z → c ≢ b → Quiet a c (free c)
  other-Quiet a lo hi c z e apart =
      far-Quiet a (pages_apart c b a (h.slabs c z e).page (h.slabs b size at).page apart lo hi)
        (h.slabs c z e)

  pub replace :
      (m : ℕ → ℕ) (objs : List ℕ)
      → IsSlab m own b size objs
      → ((c z : ℕ) → own c ≡ some z → c ≢ b → IsSlab m own c z (free c))
      → IsHeap f own (update free b objs) (record s { mem = m })
  replace m objs new others = record {
    ready = h.ready;
    offset_page = h.offset_page;
    offset_fits = h.offset_fits;
    granted = h.granted;
    slabs = λ c z e. elim (Bool-cases (c == b)) [
      | inl same ↦
          let eq : c ≡ b = (==_iff c b).0 same in
          let z_eq : size ≡ z = some_eq (sym at ∙ sym (ap own eq) ∙ e) in
          subst (λ c. IsSlab m own c z (update free b objs c)) (sym eq)
            (rw (update_self free b objs) (subst (λ z. IsSlab m own b z objs) z_eq new))
      | inr apart ↦
          let ne : c ≢ b = λ e. false_ne_true (c == b) ((==_iff c b).1 e) apart in
          rw (update_ne free b objs c ne) (others c z e ne)
    ];
    cached = h.cached;
  }

  module _ {o : ℕ} {os : List ℕ} (top : free b ≡ o ∷ os) where
    pub top-IsSlab : IsSlab s.mem own b size (o ∷ os)
    top-IsSlab = subst (λ l. IsSlab s.mem own b size l) top (h.slabs b size at)

    -- The head of the list is what the header of the slab points to.
    pub free_list-top : s.mem (b + 8) ≡ o
    free_list-top = top-IsSlab.list.0

    pub pop_object-IsHeap : IsHeap f own (update free b os) (pop_object b s)
    unfolding pop_object
    pop_object-IsHeap =
        let i = top-IsSlab in
        let m = update s.mem (b + 8) (s.mem (s.mem (b + 8))) in
        let place = Slot-Placed size b o i.units i.some_size i.page i.slots.0 in
        let away : Absent (b + 8) os =
          odd-Absent (b + 8) size b os i.units i.some_size i.page (λ e. omega (arith, i.page))
            i.slots.1 in
        let list : Linked m (m (b + 8)) os =
          rw (update_self s.mem (b + 8) (s.mem (s.mem (b + 8)))) (
            Linked-update s.mem (b + 8) _ (s.mem (s.mem (b + 8))) os away
              (rw (ap s.mem i.list.0) i.list.2)) in
        replace m os
          (record {
            units = i.units;
            some_size = i.some_size;
            page = i.page;
            nonnull = i.nonnull;
            headed = update_ne s.mem (b + 8) _ b (λ e. omega arith) ∙ i.headed;
            chained =
                rw (update_ne s.mem (b + 8) (s.mem (s.mem (b + 8))) (b + 16) (λ e. omega arith))
                  i.chained;
            slots = i.slots.1;
            distinct = i.distinct.1;
            list = list;
          })
          (λ c z e ne.
            IsSlab-update (b + 8) _ (other-Quiet (b + 8) (omega arith) (omega arith) c z e ne)
              (h.slabs c z e))

  module _ {o : ℕ} (slot : Slot size b o) (new : Absent o (free b)) where
    pub push_object-IsHeap : IsHeap f own (update free b (o ∷ free b)) (push_object b o s)
    unfolding push_object
    push_object-IsHeap =
        let i = h.slabs b size at in
        let place = Slot-Placed size b o i.units i.some_size i.page slot in
        let m1 = update s.mem o (s.mem (b + 8)) in
        let m = update m1 (b + 8) o in
        let away : Absent (b + 8) (free b) =
          odd-Absent (b + 8) size b (free b) i.units i.some_size i.page (λ e. omega (arith, i.page))
            i.slots in
        let at_o : m o ≡ s.mem (b + 8) =
          update_ne m1 (b + 8) o o (λ e. omega (arith, place.stride, i.page))
          ∙ update_self s.mem o (s.mem (b + 8)) in
        let kept : (a : ℕ) → a ≢ o → a ≢ b + 8 → m a ≡ s.mem a =
          λ a n k. update_ne m1 (b + 8) o a k ∙ update_ne s.mem o (s.mem (b + 8)) a n in
        replace m (o ∷ free b)
          (record {
            units = i.units;
            some_size = i.some_size;
            page = i.page;
            nonnull = i.nonnull;
            headed = kept b (λ e. omega (arith, place.after)) (λ e. omega arith) ∙ i.headed;
            chained =
                rw (kept (b + 16) (λ e. omega (arith, place.after)) (λ e. omega arith)) i.chained;
            slots = (slot, i.slots);
            distinct = (new, i.distinct);
            list = (
              update_self m1 (b + 8) o,
              (λ e. omega (arith, place.after)),
              rw at_o (
                  Linked-update m1 (b + 8) o (s.mem (b + 8)) (free b) away
                    (Linked-update s.mem o (s.mem (b + 8)) (s.mem (b + 8)) (free b) new i.list)),
            );
          })
          (λ c z e ne.
            IsSlab-update (b + 8) o (other-Quiet (b + 8) (omega arith) (omega arith) c z e ne) (
              IsSlab-update o (s.mem (b + 8))
                (other-Quiet o (omega (arith, place.after)) (omega (arith, place.within)) c z e ne)
                (h.slabs c z e)))

  -- `next_slab = new` keeps the invariant, for a slab of the same size.
  linked-IsSlab :
      (new : ℕ) → own new ≡ some size → IsSlab (update s.mem (b + 16) new) own b size (free b)
  linked-IsSlab new e =
      let i = h.slabs b size at in
      let away : Absent (b + 16) (free b) =
        odd-Absent (b + 16) size b (free b) i.units i.some_size i.page (λ e. omega (arith, i.page))
          i.slots in
      let list_same = update_ne s.mem (b + 16) new (b + 8) (λ e. omega arith) in
      record {
        units = i.units;
        some_size = i.some_size;
        page = i.page;
        nonnull = i.nonnull;
        headed = update_ne s.mem (b + 16) new b (λ e. omega arith) ∙ i.headed;
        chained = inr (rw (update_self s.mem (b + 16) new) e);
        slots = i.slots;
        distinct = i.distinct;
        list = rw list_same (Linked-update s.mem (b + 16) new (s.mem (b + 8)) (free b) away i.list);
      }

  pub link-IsHeap : (new : ℕ) → own new ≡ some size → IsHeap f own free (store (b + 16) new s)
  link-IsHeap new e' = record {
    ready = h.ready;
    offset_page = h.offset_page;
    offset_fits = h.offset_fits;
    granted = h.granted;
    slabs = λ c z e. elim (Bool-cases (c == b)) [
      | inl same ↦
          let eq : b ≡ c = sym ((==_iff c b).0 same) in
          subst (λ c. IsSlab (update s.mem (b + 16) new) own c z (free c)) eq
            (subst (λ z. IsSlab (update s.mem (b + 16) new) own b z (free b))
              (some_eq (sym at ∙ ap own eq ∙ e)) (linked-IsSlab new e'))
      | inr apart ↦
          let ne : c ≢ b = λ e. false_ne_true (c == b) ((==_iff c b).1 e) apart in
          IsSlab-update (b + 16) new (other-Quiet (b + 16) (omega arith) (omega arith) c z e ne)
            (h.slabs c z e)
    ];
    cached = h.cached;
  }
