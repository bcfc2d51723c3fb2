-- ===== src/Mm/Heap/Return.antt =====
-- Giving a block back to the heap of kernel/src/mm/heap.c keeps what holds between the operations.
use ded_os.Base.{
  ℕ, ◌+◌, ◌%◌, ◌^◌, ◌≡◌, ◌≢◌, sym, ◌∙◌, ap, ◌==◌, ==_iff, ◌⊎◌, inl, inr, some, List, [], ◌∷◌, arith,
  All, Bool-cases, true, false, get_elem?,
}
use mathlib.Core.Path.{subst}
use ded_os.Base.Memory.{update, update_self, update_ne}
use ded_os.Mm.Vmm.Frames.{Frames}
use ded_os.Mm.Heap.{Heap, kfree, push_object}
use ded_os.Mm.Heap.Lists.{Absent}
use ded_os.Mm.Heap.Run.{remove, New}
use ded_os.Mm.Heap.Sound.{IsSound}
use ded_os.Mm.Heap.Held.{All-get, All-remove, New-remove}
use ded_os.Mm.Heap.Kfree.{kfree-push, kfree-IsHeap, kfree-Stocked, kfree-frame}
use ded_os.Mm.Heap.History.{Block, Live}

module _ {P : Type 0} {alloc : P → P × ℕ} (release : P → ℕ → P) (f : Frames P alloc) where
  pub give_back-IsSound :
      {n left : ℕ} {s : Heap P} {held : List Block} (i : ℕ) (b : Block)
      → (sound : IsSound f n left s held) → get_elem? held i ≡ some b
      → IsSound f n left (kfree release b.ptr s) (remove i held)
  give_back-IsSound {n} {left} {s} {held} i b sound e =
      let l : Live sound.own sound.free s.mem b =
        All-get (Live sound.own sound.free s.mem) held i e sound.live in
      let h = sound.valid in
      let (new, apart) = New-remove held i e sound.apart in
      subst (λ p. IsSound f n left (kfree release p s) (remove i held)) (sym l.block)
        (record {
          own = sound.own;
          free = update sound.free l.slab (l.obj ∷ sound.free l.slab);
          valid = kfree-IsHeap release h l.at l.slot l.taken l.tagged;
          stocked = kfree-Stocked release h l.at l.slot l.taken l.tagged n sound.stocked;
          pages =
              rw (kfree-push release h l.at l.slot l.taken l.tagged)
                (unfold push_object in sound.pages);
          live =
              others l (remove i held) new
                (All-remove (Live sound.own sound.free s.mem) held i sound.live);
          apart = apart;
        })
    where
      others :
          (l : Live sound.own sound.free s.mem b) (bs : List Block)
          → New b bs
          → All (Live sound.own sound.free s.mem) bs
          → All
              (Live sound.own
                (update sound.free l.slab (l.obj ∷ sound.free l.slab))
                (kfree release (l.obj + 24) s).mem)
              bs
      others l [] new all = tt
      others l (c ∷ cs) (ne, new) (lc, all) =
          let other : lc.obj ≢ l.obj =
            λ e. ne (l.block ∙ ap (λ o. o + 24) (sym e) ∙ sym lc.block) in
          let size_ok = (sound.valid.slabs lc.slab lc.obj_size lc.at).some_size in
          (
            record {
              obj_size = lc.obj_size;
              slab = lc.slab;
              obj = lc.obj;
              at = lc.at;
              slot = lc.slot;
              taken = still l lc other (Bool-cases (lc.slab == l.slab));
              block = lc.block;
              fits = lc.fits;
              tagged =
                  ap (λ w. w % 2 ^ 32)
                    (kfree-frame release sound.valid l.at l.slot l.taken l.tagged lc.slab
                      lc.obj_size lc.obj lc.at (omega (arith, lc.slot.at))
                      (omega (arith, lc.slot.at, lc.slot.inside, size_ok)) other)
                  ∙ lc.tagged;
            },
            others l cs new all,
          )
        where
          still :
              (l : Live sound.own sound.free s.mem b) (lc : Live sound.own sound.free s.mem c)
              → lc.obj ≢ l.obj
              → ((lc.slab == l.slab) ≡ true) ⊎ ((lc.slab == l.slab) ≡ false)
              → Absent lc.obj (update sound.free l.slab (l.obj ∷ sound.free l.slab) lc.slab)
          still l lc ne (inl same) =
              let eq : lc.slab ≡ l.slab = (==_iff lc.slab l.slab).0 same in
              subst (Absent lc.obj)
                (sym (
                  ap (update sound.free l.slab (l.obj ∷ sound.free l.slab)) eq
                  ∙ update_self sound.free l.slab (l.obj ∷ sound.free l.slab)))
                (ne, subst (λ x. Absent lc.obj (sound.free x)) eq lc.taken)
          still l lc ne (inr two) =
              subst (Absent lc.obj)
                (sym (
                  update_ne sound.free l.slab (l.obj ∷ sound.free l.slab) lc.slab
                    (λ e. clash (sym ((==_iff lc.slab l.slab).1 e) ∙ two))))
                lc.taken
            where
              clash : {A : Type 0} → true ≡ false → A
              clash e = cc
