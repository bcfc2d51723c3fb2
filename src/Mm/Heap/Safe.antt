-- ===== src/Mm/Heap/Safe.antt =====
-- Any history of a caller of the heap, kernel/src/mm/heap.c.
use ded_os.Base.{
  ℕ, suc, ◌+◌, ◌≤◌, ◌≡◌, refl, ap, inl, inr, Option, none, some, List, [], ◌∷◌, arith, All,
  Bool-cases, ltb, ltb→lt, if_true, if_false, get_elem?, length,
}
use mathlib.Core.Path.{subst}
use ded_os.Base.Partial.{◌>>=◌}
use ded_os.Mm.Vmm.Frames.{Frames}
use ded_os.Mm.Heap.{Heap, store, kfree}
use ded_os.Mm.Heap.Inv.{Slabs, FreeLists, IsHeap}
use ded_os.Mm.Heap.Stock.{Stocked, more-Stocked}
use ded_os.Mm.Heap.Kmalloc.{kmalloc-Served}
use ded_os.Mm.Heap.Run.{Op, take, give_back, write, IsRequest, step, run, remove, New, AllNew}
use ded_os.Mm.Heap.Sound.{IsSound, take-IsSound}
use ded_os.Mm.Heap.Return.{give_back-IsSound}
use ded_os.Mm.Heap.Write.{write-IsSound}
use ded_os.Mm.Heap.History.{Block, Live, Disjoint, AllDisjoint, Live-Disjoint}

module _ {P : Type 0} {alloc : P → P × ℕ} {f : Frames P alloc} (release : P → ℕ → P) where
  less :
      {n left : ℕ} {s : Heap P} {held : List Block}
      → IsSound f n (suc left) s held
      → IsSound f (suc n) left s held
  less i = record {
    own = i.own;
    free = i.free;
    valid = i.valid;
    stocked = more-Stocked i.valid i.stocked;
    pages = omega (arith, i.pages);
    live = i.live;
    apart = i.apart;
  }

  -- Each operation ends, and keeps what holds between them.
  step-IsSound :
      {n left : ℕ} {s : Heap P} {held : List Block} (op : Op)
      → IsRequest op
      → IsSound f n (suc left) s held
      → (s' : Heap P) × (held' : List Block) × (step alloc release (suc n) op (s, held)
          ≡ some (s', held'))
        × IsSound f (suc n) left s' held'
  unfolding step
  step-IsSound {n} {left} {s} {held} (take size) (some_size, small) i =
      let (s', ptr, runs, v) =
        kmalloc-Served n size i.valid i.stocked (omega (arith, i.pages)) some_size small in
      (
        s',
        record { ptr = ptr; size = size } ∷ held,
        rw (runs, ◌>>=◌) refl,
        take-IsSound size ptr i v,
      )
  step-IsSound {n} {left} {s} {held} (give_back j) ok i = pick (get_elem? held j) refl
    where
      pick :
          (r : Option Block)
          → get_elem? held j ≡ r
          → (s' : Heap P) × (held' : List Block) × (step alloc release
                (suc n)
                (give_back j)
                (s, held)
              ≡ some (s', held'))
            × IsSound f (suc n) left s' held'
      pick none e = (s, held, rw (e, step) refl, less i)
      pick (some b) e = (
        kfree release b.ptr s,
        remove j held,
        rw (e, step) refl,
        less (give_back-IsSound release f j b i e),
      )
  step-IsSound {n} {left} {s} {held} (write j k v) ok i = pick (get_elem? held j) refl
    where
      pick :
          (r : Option Block)
          → get_elem? held j ≡ r
          → (s' : Heap P) × (held' : List Block) × (step alloc release
                (suc n)
                (write j k v)
                (s, held)
              ≡ some (s', held'))
            × IsSound f (suc n) left s' held'
      pick none e = (s, held, rw (e, step) refl, less i)
      pick (some b) e = elim (Bool-cases (ltb k b.size)) [
        | inl lt ↦ (
          store (b.ptr + k) v s,
          held,
          rw (e, step) (ap (λ (t : Heap P). some (t, held)) (if_true _ _ _ lt)),
          less (write-IsSound j k v b i e (ltb→lt k b.size lt)),
        )
        | inr ge ↦ (
          s,
          held,
          rw (e, step) (ap (λ (t : Heap P). some (t, held)) (if_false _ _ _ ge)),
          less i,
        )
      ]

  run-IsSound :
      {n left : ℕ} {s : Heap P} {held : List Block} (ops : List Op)
      → All IsRequest ops
      → IsSound f n (length ops + left) s held
      → (s' : Heap P) × (held' : List Block) × (run alloc release (suc n) ops (s, held)
          ≡ some (s', held'))
        × (m : ℕ) × IsSound f m left s' held'
  unfolding run
  run-IsSound {n} {left} {s} {held} [] ok i =
      (s, held, refl, n, subst (λ k. IsSound f n k s held) (omega arith) i)
  run-IsSound {n} {left} {s} {held} (op ∷ ops) (o, ok) i =
      let (s1, held1, steps, i1) =
        step-IsSound op o
          (subst (λ k. IsSound f n k s held) {y = suc (length ops + left)} (omega arith) i) in
      let (s2, held2, runs, m, i2) =
        run-IsSound {n = suc n} {left = left} {s = s1} {held = held1} ops ok i1 in
      (s2, held2, rw (steps, ◌>>=◌) runs, m, i2)

  held_disjoint :
      {s : Heap P} (held : List Block)
      → (own : Slabs) (free : FreeLists) → IsHeap f own free s
      → All (Live own free s.mem) held
      → AllNew held
      → AllDisjoint held
  held_disjoint [] own free h live new = tt
  held_disjoint {s = s} (b ∷ bs) own free h (l, live) (n, new) =
      (go bs live n, held_disjoint bs own free h live new)
    where
      go : (cs : List Block) → All (Live own free s.mem) cs → New b cs → All (Disjoint b) cs
      go [] live new = tt
      go (c ∷ cs) (lc, live) (ne, new) = (Live-Disjoint h l lc ne, go cs live new)

  -- From a heap in order with chains of at most `n` slabs and a page for each operation, a caller that
  -- asks for blocks of 1 to 1000 bytes, writes inside the blocks it holds and gives blocks it holds
  -- back, in any order, always gets its blocks, the heap stays in order, and no two blocks that it
  -- holds overlap.
  pub run-Disjoint :
      (n : ℕ) {own : Slabs} {free : FreeLists} {s : Heap P} (ops : List Op)
      → IsHeap f own free s
      → Stocked n own s
      → All IsRequest ops
      → length ops ≤ f.available s.vmm.frames
      → (s' : Heap P) × (held : List Block) × (own' : Slabs) × (free' : FreeLists) × (run alloc
            release
            (suc n)
            ops
            (s, [])
          ≡ some (s', held))
        × IsHeap f own' free' s'
        × AllDisjoint held
  run-Disjoint n {own} {free} {s} ops h st ok pages =
      let (s', held, runs, m, i) = run-IsSound {n = n} {left = 0} ops ok (record {
        own = own;
        free = free;
        valid = h;
        stocked = st;
        pages = omega (arith, pages);
        live = tt;
        apart = tt;
      }) in
      (
        s',
        held,
        i.own,
        i.free,
        runs,
        i.valid,
        held_disjoint held i.own i.free i.valid i.live i.apart,
      )
