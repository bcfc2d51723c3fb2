-- ===== src/Mm/Heap/Write.antt =====
-- A write inside a block of the heap of kernel/src/mm/heap.c keeps what holds between the operations.
use ded_os.Base.{
  ℕ, ◌+◌, ◌%◌, ◌^◌, ◌≤◌, ◌<◌, ◌≡◌, ◌≢◌, sym, ◌∙◌, ap, ◌==◌, ==_iff, ◌⊎◌, inl, inr, some, List, [],
  ◌∷◌, arith, All, Bool-cases, true, false, get_elem?,
}
use ded_os.Base.Memory.{update, update_ne}
use ded_os.Mm.Vmm.Frames.{Frames}
use ded_os.Mm.Heap.{Heap, store}
use ded_os.Mm.Heap.Blocks.{within-Quiet, block-IsHeap}
use ded_os.Mm.Heap.Stock.{kept-Stocked}
use ded_os.Mm.Heap.Sound.{IsSound}
use ded_os.Mm.Heap.Held.{All-get}
use ded_os.Mm.Heap.History.{Block, Live, objects_apart}

module _ {P : Type 0} {alloc : P → P × ℕ} {f : Frames P alloc} where
  pub write-IsSound :
      {n left : ℕ} {s : Heap P} {held : List Block} (i k v : ℕ) (b : Block)
      → (sound : IsSound f n left s held) → get_elem? held i ≡ some b
      → k < b.size
      → IsSound f n left (store (b.ptr + k) v s) held
  write-IsSound {n} {left} {s} {held} i k v b sound e lt =
      let l : Live sound.own sound.free s.mem b =
        All-get (Live sound.own sound.free s.mem) held i e sound.live in
      let quiet =
        within-Quiet sound.valid l.at l.slot l.taken (b.ptr + k) (omega (arith, l.block))
          (omega (arith, l.block, l.fits)) in
      record {
        own = sound.own;
        free = sound.free;
        valid =
            block-IsHeap sound.valid l.at l.slot l.taken (b.ptr + k) v (omega (arith, l.block))
              (omega (arith, l.block, l.fits));
        stocked =
            kept-Stocked sound.valid sound.stocked sound.own (update s.mem (b.ptr + k) v) s.vmm
              (λ x z e. e)
              (λ x z e.
                update_ne s.mem (b.ptr + k) v (x + 16) (λ same. (quiet x z e).no_next (sym same)));
        pages = sound.pages;
        live = others l held sound.live;
        apart = sound.apart;
      }
    where
      others :
          (l : Live sound.own sound.free s.mem b) (bs : List Block)
          → All (Live sound.own sound.free s.mem) bs
          → All (Live sound.own sound.free (update s.mem (b.ptr + k) v)) bs
      others l [] all = tt
      others l (c ∷ cs) (lc, all) = (
        record {
          obj_size = lc.obj_size;
          slab = lc.slab;
          obj = lc.obj;
          at = lc.at;
          slot = lc.slot;
          taken = lc.taken;
          block = lc.block;
          fits = lc.fits;
          tagged =
              ap (λ w. w % 2 ^ 32)
                (update_ne s.mem (b.ptr + k) v lc.obj
                  (λ same. header_ne (Bool-cases (lc.obj == l.obj)) same))
              ∙ lc.tagged;
        },
        others l cs all,
      )
        where
          -- The header of the block itself lies before it, that of another one outside its object.
          header_ne : ((lc.obj == l.obj) ≡ true) ⊎ ((lc.obj == l.obj) ≡ false) → lc.obj ≢ b.ptr + k
          header_ne (inl same) e = omega (arith, (==_iff lc.obj l.obj).0 same, l.block)
          header_ne (inr two) e = away (
              objects_apart l.slab lc.slab l.obj lc.obj l.obj_size lc.obj_size
                (sound.valid.slabs l.slab l.obj_size l.at)
                (sound.valid.slabs lc.slab lc.obj_size lc.at) l.at lc.at l.slot lc.slot
                (λ e. clash (sym ((==_iff lc.obj l.obj).1 (sym e)) ∙ two)))
            where
              clash : {A : Type 0} → true ≡ false → A
              clash e = cc

              away : (l.obj + l.obj_size ≤ lc.obj) ⊎ (lc.obj + lc.obj_size ≤ l.obj) → ⊥
              away (inl h) = omega (arith, l.block, l.fits)
              away (inr h) =
                  omega (arith, l.block, (sound.valid.slabs lc.slab lc.obj_size lc.at).some_size)
