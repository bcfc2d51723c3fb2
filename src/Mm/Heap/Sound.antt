-- ===== src/Mm/Heap/Sound.antt =====
-- What a caller's operations on the heap of kernel/src/mm/heap.c keep: taking a block.
use ded_os.Base.{ℕ, suc, ◌≤◌, sym, List, [], ◌∷◌, arith, All}
use ded_os.Base.Memory.{update, update_self}
use ded_os.Mm.Vmm.Frames.{Frames}
use ded_os.Mm.Heap.{Heap}
use ded_os.Mm.Heap.Inv.{Slabs, FreeLists, IsHeap}
use ded_os.Mm.Heap.Stock.{Stocked}
use ded_os.Mm.Heap.Kmalloc.{Served}
use ded_os.Mm.Heap.Run.{New, AllNew}
use ded_os.Mm.Heap.History.{Block, Live, Served-Live}

-- What holds between the operations: the heap's invariant, pages for `left` more blocks, and blocks
-- that are objects of their own.
pub record IsSound {P : Type 0} {alloc : P → P × ℕ} (f : Frames P alloc) (n left : ℕ) (s : Heap P)
    (held : List Block) : Type 0 where
  pub own : Slabs
  pub free : FreeLists
  pub valid : IsHeap f own free s
  pub stocked : Stocked n own s
  pub pages : left ≤ f.available s.vmm.frames
  pub live : All (Live own free s.mem) held
  pub apart : AllNew held

module _ {P : Type 0} {alloc : P → P × ℕ} {f : Frames P alloc} where
  pub take-IsSound :
      {n left : ℕ} {s s' : Heap P} {held : List Block} (size ptr : ℕ)
      → (i : IsSound f n (suc left) s held) → Served f i.own i.free size s s' ptr
      → IsSound f (suc n) left s' (record { ptr = ptr; size = size } ∷ held)
  take-IsSound {n} {left} {s} {s'} {held} size ptr i v =
      let here = update_self v.free' v.slab v.rest in
      let (lives, news) = others held i.live in
      record {
        own = v.own';
        free = update v.free' v.slab v.rest;
        valid = v.valid;
        stocked = v.stocked n i.stocked;
        pages = omega (arith, i.pages, v.left);
        live = (
          record {
            obj_size = v.obj_size;
            slab = v.slab;
            obj = v.obj;
            at = v.at;
            slot = v.slot;
            taken = rw here v.gone;
            block = v.block;
            fits = v.fits;
            tagged = v.tagged;
          },
          lives,
        );
        apart = (news, i.apart);
      }
    where
      others :
          (bs : List Block)
          → All (Live i.own i.free s.mem) bs
          → All (Live v.own' (update v.free' v.slab v.rest) s'.mem) bs
            × New (record { ptr = ptr; size = size }) bs
      others [] all = (tt, tt)
      others (b ∷ bs) (l, all) =
          let (l', ne) = Served-Live i.valid v l in
          let (ls, nes) = others bs all in ((l', ls), ((λ e. ne (sym e)), nes))
