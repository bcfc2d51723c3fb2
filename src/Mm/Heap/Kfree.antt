-- ===== src/Mm/Heap/Kfree.antt =====
-- `kfree` of kernel/src/mm/heap.c for small blocks, after `kmalloc`.
use mathlib.Core.Path.{subst}
use ded_os.Base.{
  ℕ, ◌+◌, ◌*◌, ◌/◌, ◌%◌, ◌^◌, ◌≤◌, ◌<◌, ◌≡◌, ◌≢◌, sym, ◌∙◌, ap, some, ◌∷◌, arith, ==-ne, ==_iff,
  if_true, if_false,
}
use ded_os.Base.Memory.{update, update_self, update_ne, update-update, update_same}
use ded_os.Base.Word.{sub64}
use ded_os.Mm.Vmm.Frames.{Frames}
use ded_os.Mm.Heap.{Heap, kfree, push_object, magic_slab}
use ded_os.Mm.Heap.Lists.{Absent}
use ded_os.Mm.Heap.Inv.{Slabs, FreeLists, Slot, Placed, Slot-Placed, IsHeap}
use ded_os.Mm.Heap.Objects.{push_object-IsHeap}
use ded_os.Mm.Heap.Stock.{Stocked, kept-Stocked}
use ded_os.Mm.Heap.Kmalloc.{Served}

module _ {P : Type 0} {alloc : P → P × ℕ} {f : Frames P alloc} (release : P → ℕ → P) {own : Slabs}
    {free : FreeLists} {s : Heap P} (h : IsHeap f own free s) {b size : ℕ} (at : own b ≡ some size)
    {o : ℕ} (slot : Slot size b o) (new : Absent o (free b))
    (tag : s.mem o % 2 ^ 32 ≡ magic_slab) where
  place : Placed b o
  place = let i = h.slabs b size at in Slot-Placed size b o i.units i.some_size i.page slot

  -- What `kfree` does with a block of a slab.
  pub kfree-push : kfree release (o + 24) s ≡ push_object b o s
  unfolding kfree
  kfree-push =
      let i = h.slabs b size at in
      let g = h.granted b size at in
      let header : sub64 (o + 24) 24 ≡ o = omega (arith, place.within, g.2, i.page) in
      let base : o / 4096 * 4096 ≡ b = omega (arith, place.after, place.within, i.page) in
      if_false _ _ _ (==-ne (o + 24) 0 (λ e. omega arith))
      ∙ if_true _ _ _ (
          (==_iff (s.mem (sub64 (o + 24) 24) % 2 ^ 32) magic_slab).1
            (ap (λ a. s.mem a % 2 ^ 32) header ∙ tag))
      ∙ ap (λ a. push_object (a / 4096 * 4096) a s) header
      ∙ ap (λ c. push_object c o s) base

  pub kfree-IsHeap : IsHeap f own (update free b (o ∷ free b)) (kfree release (o + 24) s)
  kfree-IsHeap = rw kfree-push (push_object-IsHeap h at slot new)

  pub kfree-Stocked : (n : ℕ) → Stocked n own s → Stocked n own (kfree release (o + 24) s)
  unfolding push_object
  kfree-Stocked n st = rw kfree-push (
      kept-Stocked h st own (update (update s.mem o (s.mem (b + 8))) (b + 8) o) s.vmm (λ x z e. e)
        (λ x z e.
          update_ne (update s.mem o (s.mem (b + 8))) (b + 8) o (x + 16)
            (λ same. omega (arith, (h.slabs x z e).page, (h.slabs b size at).page))
          ∙ update_ne s.mem o (s.mem (b + 8)) (x + 16)
              (λ same. omega (arith, (h.slabs x z e).page, place.stride))))

  -- Other words behind the headers keep what they hold.
  pub kfree-frame :
      (x z a : ℕ)
      → own x ≡ some z
      → x + 24 ≤ a
      → a < x + 4096
      → a ≢ o
      → (kfree release (o + 24) s).mem a ≡ s.mem a
  unfolding push_object
  kfree-frame x z a e lo hi ne =
      ap (λ (t : Heap P). t.mem a) kfree-push
      ∙ update_ne (update s.mem o (s.mem (b + 8))) (b + 8) o a
          (λ same. omega (arith, (h.slabs x z e).page, (h.slabs b size at).page))
      ∙ update_ne s.mem o (s.mem (b + 8)) a ne

module _ {P : Type 0} {alloc : P → P × ℕ} {f : Frames P alloc} {own : Slabs} {free : FreeLists}
    {size : ℕ} {s s' : Heap P} {ptr : ℕ} (release : P → ℕ → P)
    (served : Served f own free size s s' ptr) where
  -- `kfree` of a block that `kmalloc` has just returned leaves a heap in order with the slabs and the free
  -- lists that `kmalloc` took the block from: those before, and that of a new slab if none was free.
  pub kfree-kmalloc : IsHeap f served.own' served.free' (kfree release ptr s')
  kfree-kmalloc =
      let v = served in
      let free1 = update v.free' v.slab v.rest in
      let here = update_self v.free' v.slab v.rest in
      let gone : Absent v.obj (free1 v.slab) = rw here v.gone in
      let back : update free1 v.slab (v.obj ∷ free1 v.slab) ≡ v.free' =
        ap (λ l. update free1 v.slab (v.obj ∷ l)) here
        ∙ update-update v.free' v.slab v.rest (v.obj ∷ v.rest)
        ∙ update_same v.free' v.slab (v.obj ∷ v.rest) v.top in
      subst (λ free. IsHeap f v.own' free (kfree release ptr s')) back
        (subst
          (λ p. IsHeap f v.own' (update free1 v.slab (v.obj ∷ free1 v.slab)) (kfree release p s'))
          (sym v.block) (kfree-IsHeap release v.valid v.at v.slot gone v.tagged))
