-- ===== src/Mm/Heap/Kmalloc.antt =====
-- `kmalloc` of kernel/src/mm/heap.c for small blocks.
use mathlib.Core.List.{map}
use ded_os.Base.{
  ℕ, suc, ◌+◌, ◌*◌, ◌/◌, ◌%◌, ◌^◌, ◌≤◌, ◌<◌, ◌≡◌, refl, ◌≢◌, sym, ◌∙◌, ap, ◌⊎◌, inl, inr, some,
  List, [], ◌∷◌, arith, All, ==-ne, ltb, leb, Bool-cases, true, false, if_true, if_false,
}
use ded_os.Base.Memory.{update, update_self, update_ne}
use ded_os.Base.Word.{add64}
use ded_os.Base.Partial.{◌>>=◌}
use ded_os.Mm.Vmm.Frames.{Frames}
use ded_os.Mm.Heap.{
  Heap, SlabCache, slab_sizes, find_cache, take_object, mark_slab_block, kmalloc, alloc_object,
  magic_slab, store,
}
use ded_os.Mm.Heap.Lists.{Absent}
use ded_os.Mm.Heap.Inv.{Slabs, FreeLists, Slot, IsHeap}
use ded_os.Mm.Heap.Blocks.{within-Quiet, block-IsHeap}
use ded_os.Mm.Heap.Stock.{Stocked, kept-Stocked}
use ded_os.Mm.Heap.Serve.{Taken, take_object-Taken}

abbrev pub IsSize : ℕ → Type 0
IsSize z = (z % 32 ≡ 0) × (32 ≤ z) × (z ≤ 1024)

abbrev Fits : ℕ → List ℕ → Type 0
Fits total [] = ⊥
Fits total (z ∷ zs) = (total ≤ z) ⊎ Fits total zs

pub sizes_good : All IsSize slab_sizes
sizes_good = omega arith

le-leb : (a b : ℕ) → a ≤ b → leb a b ≡ true
le-leb a b h = ground arith

leb_le : (a b : ℕ) → leb a b ≡ true → a ≤ b
leb_le a b h = ground arith

-- The first cache with large enough objects.
find_cache-some :
    {Q : SlabCache → Type 0} (total : ℕ) (cs : List SlabCache) (zs : List ℕ)
    → map (λ (c : SlabCache). c.obj_size) cs ≡ zs
    → All IsSize zs
    → Fits total zs
    → All Q cs
    → (c : SlabCache) × (find_cache total cs ≡ some c)
      × (total ≤ c.obj_size)
      × IsSize c.obj_size
      × Q c
unfolding find_cache
find_cache-some {Q} total [] [] e good fit all = absurd fit
find_cache-some {Q} total [] (z ∷ zs) e good fit all = cc
find_cache-some {Q} total (c ∷ cs) [] e good fit all = cc
find_cache-some {Q} total (c ∷ cs) (z ∷ zs) e (g, good) fit (q, all) =
    elim (Bool-cases (leb total c.obj_size)) [
      | inl yes_fit ↦
          (c, if_true _ _ _ yes_fit, leb_le total c.obj_size yes_fit, rw (head_eq e) g, q)
      | inr no_fit ↦
          let (d, finds, le, is, q') =
            find_cache-some {Q = Q} total cs zs (tail_eq e) good (later fit (head_eq e) no_fit)
              all in
          (d, if_false _ _ _ no_fit ∙ finds, le, is, q')
    ]
  where
    head_eq : c.obj_size ∷ map (λ (c : SlabCache). c.obj_size) cs ≡ z ∷ zs → c.obj_size ≡ z
    head_eq e = cc

    tail_eq :
        c.obj_size ∷ map (λ (c : SlabCache). c.obj_size) cs ≡ z ∷ zs
        → map (λ (c : SlabCache). c.obj_size) cs ≡ zs
    tail_eq e = cc

    later :
        (total ≤ z) ⊎ Fits total zs → c.obj_size ≡ z → leb total c.obj_size ≡ false → Fits total zs
    later (inl le) e n = clash (sym (le-leb total c.obj_size (omega (arith, e))) ∙ n)
      where
        clash : {A : Type 0} → true ≡ false → A
        clash e = cc
    later (inr f) e n = f

-- The block at `ptr`: the object `obj` behind its header, which was the first free one of its slab
-- and is free no more. The slabs and lists before are kept but for that object; `own'` and `free'`
-- have one slab more if all were full. What other blocks hold is as it was.
pub record Served {P : Type 0} {alloc : P → P × ℕ} (f : Frames P alloc) (own : Slabs)
    (free : FreeLists) (size : ℕ) (s s' : Heap P) (ptr : ℕ) : Type 0 where
  pub own' : Slabs
  pub free' : FreeLists
  pub obj_size : ℕ
  pub slab : ℕ
  pub obj : ℕ
  pub rest : List ℕ
  pub keeps : (x z : ℕ) → own x ≡ some z → (own' x ≡ some z) × (free' x ≡ free x)
  pub at : own' slab ≡ some obj_size
  pub top : free' slab ≡ obj ∷ rest
  pub slot : Slot obj_size slab obj
  pub gone : Absent obj rest
  pub block : ptr ≡ obj + 24
  pub fits : size + 24 ≤ obj_size
  pub tagged : s'.mem obj % 2 ^ 32 ≡ magic_slab
  pub frame :
      (x z a : ℕ)
      → own x ≡ some z
      → x + 24 ≤ a
      → a < x + 4096
      → (a < obj) ⊎ (obj + obj_size ≤ a)
      → s'.mem a ≡ s.mem a
  pub left : f.available s.vmm.frames ≤ f.available s'.vmm.frames + 1
  pub stocked : (n : ℕ) → Stocked n own s → Stocked (suc n) own' s'
  pub valid : IsHeap f own' (update free' slab rest) s'

module _ {P : Type 0} {alloc : P → P × ℕ} {f : Frames P alloc} {own : Slabs} {free : FreeLists}
    {s : Heap P} where
  -- The header of the block is written into the object.
  mark-Served :
      (size z obj : ℕ) (s1 : Heap P)
      → size + 24 ≤ z
      → Taken f own free z s s1 obj
      → Served f own free size s (mark_slab_block obj size s1) (obj + 24)
  unfolding mark_slab_block
  mark-Served size z obj s1 fits t =
      let free1 = update t.free' t.slab t.rest in
      let m1 = update s1.mem obj (s1.mem obj / 2 ^ 32 * 2 ^ 32 + magic_slab) in
      let s2 = store obj (s1.mem obj / 2 ^ 32 * 2 ^ 32 + magic_slab) s1 in
      let absent : Absent obj (free1 t.slab) = rw (update_self t.free' t.slab t.rest) t.gone in
      let valid1 =
        block-IsHeap t.valid t.at t.slot absent obj (s1.mem obj / 2 ^ 32 * 2 ^ 32 + magic_slab)
          (omega arith) (omega arith) in
      record {
        own' = t.own';
        free' = t.free';
        obj_size = z;
        slab = t.slab;
        obj = obj;
        rest = t.rest;
        keeps = t.keeps;
        at = t.at;
        top = t.top;
        slot = t.slot;
        gone = t.gone;
        block = refl;
        fits = fits;
        tagged =
            ap (λ w. w % 2 ^ 32)
              (update_ne m1 (obj + 16) size obj (λ e. omega arith) ∙ update_self s1.mem obj _)
            ∙ omega arith;
        frame = λ x y a e lo hi out.
            update_ne m1 (obj + 16) size a (λ e. outside a out (omega arith))
            ∙ update_ne s1.mem obj _ a (λ e. outside a out (omega arith))
            ∙ t.frame x y a e lo hi;
        left = t.left;
        stocked = λ n st.
            let quiet = within-Quiet t.valid t.at t.slot absent in
            kept-Stocked t.valid (t.stocked n st) t.own' (update m1 (obj + 16) size) s1.vmm
              (λ x y e. e)
              (λ x y e.
                update_ne m1 (obj + 16) size (x + 16)
                  (λ same. (quiet (obj + 16) (omega arith) (omega arith) x y e).no_next (sym same))
                ∙ update_ne s1.mem obj _ (x + 16)
                    (λ same. (quiet obj (omega arith) (omega arith) x y e).no_next (sym same)));
        valid = block-IsHeap valid1 t.at t.slot absent (obj + 16) size (omega arith) (omega arith);
      }
    where
      outside : (a : ℕ) → (a < obj) ⊎ (obj + z ≤ a) → (obj ≤ a) × (a < obj + z) → ⊥
      outside a (inl h) (lo, hi) = omega arith
      outside a (inr h) (lo, hi) = omega arith

  -- In a heap in order whose caches have chains of at most `n` slabs, with a page left, `kmalloc` of 1 to
  -- 1000 bytes ends, with fuel for one slab more, and returns a block: what lies behind the header of a
  -- free object that has room for both. The object is on the free list no more and is tagged as one of a
  -- slab; the slabs stay slabs, and their words behind the header and outside the object stay as they
  -- were; at most one page is taken, no chain grows by more than one slab, and the heap stays in order.
  pub kmalloc-Served :
      (n size : ℕ)
      → IsHeap f own free s
      → Stocked n own s
      → 0 < f.available s.vmm.frames
      → 0 < size
      → size ≤ 1000
      → (s' : Heap P) × (ptr : ℕ) × (kmalloc alloc (suc n) size s ≡ some (s', ptr))
        × Served f own free size s s' ptr
  unfolding kmalloc alloc_object
  kmalloc-Served n size h st left some_size small =
      let (c, finds, le, (units, lo, hi), (o, ends)) =
        find_cache-some (add64 size 24) s.caches slab_sizes st.sizes sizes_good
          (inr (inr (inr (inr (inr (inl (omega arith))))))) st.chains in
      let (s1, obj, runs, t) =
        take_object-Taken f c.obj_size units lo hi n c.first_slab h o ends left in
      (
        mark_slab_block obj size s1,
        obj + 24,
        if_false _ _ _ (==-ne size 0 (λ e. omega arith))
            ∙ if_false _ _ _ (ltb_false 1024 size (omega arith))
            ∙ chosen c s1 obj finds runs (nonnull t),
        mark-Served size c.obj_size obj s1 (omega arith) t,
      )
    where
      ltb_false : (a b : ℕ) → b ≤ a → ltb a b ≡ false
      ltb_false a b h = ground arith

      nonnull : {z o : ℕ} {s1 : Heap P} → Taken f own free z s s1 o → o ≢ 0
      nonnull t e = omega (arith, t.slot.at)

      chosen :
          (c : SlabCache) (s1 : Heap P) (obj : ℕ)
          → find_cache (add64 size 24) s.caches ≡ some c
          → take_object alloc (suc n) c.obj_size c.first_slab s ≡ some (s1, obj)
          → obj ≢ 0
          → alloc_object alloc (suc n) size s ≡ some (mark_slab_block obj size s1, obj + 24)
      chosen c s1 obj finds runs ne =
          rw (finds, alloc_object) (rw (runs, ◌>>=◌) (if_false _ _ _ (==-ne obj 0 ne)))
