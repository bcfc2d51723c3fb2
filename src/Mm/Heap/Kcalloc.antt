-- ===== src/Mm/Heap/Kcalloc.antt =====
-- `kcalloc` of kernel/src/mm/heap.c: the block that `kmalloc` returns is cleared, and nothing else.
use native.Mathlib.Nat.{mul-mod_left}
use native.Mathlib.Decide.{dec_lt}
use ded_os.Base.{
  ℕ, suc, ◌+◌, ◌*◌, ◌/◌, ◌%◌, ◌^◌, ◌≤◌, ◌<◌, ◌≡◌, refl, ◌∙◌, ap, ◌⊎◌, inl, inr, some, List, [], ◌∷◌,
  arith, All, ◌==◌, ==-ne, if_false, if◌then◌else◌,
}
use ded_os.Base.Partial.{◌>>=◌}
use ded_os.Base.Word.{mul64}
use ded_os.Base.Memory.{update, update_self}
use ded_os.Mm.Vmm.Frames.{Frames}
use ded_os.Mm.Heap.{Heap, kmalloc, kcalloc, clear_words}
use ded_os.Mm.Heap.Lists.{Absent, Linked-agree}
use ded_os.Mm.Heap.Inv.{Slabs, FreeLists, Slot, IsHeap, Quiet}
use ded_os.Mm.Heap.Stock.{Stocked}
use ded_os.Mm.Heap.Blocks.{within-Quiet}
use ded_os.Mm.Heap.Kmalloc.{Served, kmalloc-Served}

pub clear_words-inside :
    (ptr n : ℕ) (m : ℕ → ℕ) (k : ℕ) → k < n / 8 → clear_words ptr n m (ptr + k * 8) ≡ 0
unfolding clear_words
clear_words-inside ptr n m k h = ground arith

pub clear_words-last :
    (ptr n : ℕ) (m : ℕ → ℕ) → clear_words ptr n m (ptr + n / 8 * 8) % 2 ^ (8 * (n % 8)) ≡ 0
unfolding clear_words
clear_words-last ptr n m =
    let kept = 2 ^ (8 * (n % 8)) in
    let at = ptr + n / 8 * 8 in
    let here : clear_words ptr n m at ≡ m at / kept * kept = ground arith in
    ap (λ v. v % kept) here ∙ mul-mod_left (m at / kept) kept

pub clear_words-outside :
    (ptr n : ℕ) (m : ℕ → ℕ) (a : ℕ) → (a < ptr) ⊎ (ptr + n ≤ a) → clear_words ptr n m a ≡ m a
unfolding clear_words
clear_words-outside ptr n m a far = elim (dec_lt (n % 8) 1) [
  | yes whole ↦ let e : n % 8 ≡ 0 = omega arith in rw e (ground arith)
  | no part ↦ ground arith
]

module _ {P : Type 0} {alloc : P → P × ℕ} {f : Frames P alloc} {own : Slabs} {free : FreeLists}
    {s : Heap P} (h : IsHeap f own free s) {b size : ℕ} (at : own b ≡ some size) {o : ℕ}
    (slot : Slot size b o) (new : Absent o (free b)) (m : ℕ → ℕ)
    (same : (a : ℕ) → (a < o) ⊎ (o + size ≤ a) → m a ≡ s.mem a) where
  -- A word that a write inside the object would disturb is no word of the object.
  word_kept : (x : ℕ) → (o ≤ x → x < o + size → ⊥) → m x ≡ s.mem x
  word_kept x outside = elim (dec_lt x o) [
    | yes below ↦ same x (inl below)
    | no up ↦ elim (dec_lt x (o + size)) [
      | yes inside ↦ absurd (outside (omega arith) inside)
      | no above ↦ same x (inr (omega arith))
    ]
  ]

  words_kept :
      (objs : List ℕ)
      → ((x : ℕ) → o ≤ x → x < o + size → Absent x objs)
      → All (λ x. m x ≡ s.mem x) objs
  words_kept [] q = tt
  words_kept (x ∷ xs) q =
      (word_kept x (λ lo hi. (q x lo hi).0 refl), words_kept xs (λ y lo hi. (q y lo hi).1))

  -- Any change of an object that is not on the free list keeps the heap's invariant.
  pub contents-IsHeap : IsHeap f own free (record s { mem = m })
  contents-IsHeap = record {
    ready = h.ready;
    offset_page = h.offset_page;
    offset_fits = h.offset_fits;
    granted = h.granted;
    slabs = λ c z e.
        let i = h.slabs c z e in
        let q : (x : ℕ) → o ≤ x → x < o + size → Quiet x c (free c) =
          λ x lo hi. within-Quiet h at slot new x lo hi c z e in
        let next_same = word_kept (c + 16) (λ lo hi. (q (c + 16) lo hi).no_next refl) in
        record {
          units = i.units;
          some_size = i.some_size;
          page = i.page;
          nonnull = i.nonnull;
          headed = word_kept c (λ lo hi. (q c lo hi).no_size refl) ∙ i.headed;
          chained = rw next_same i.chained;
          slots = i.slots;
          distinct = i.distinct;
          list = rw (word_kept (c + 8) (λ lo hi. (q (c + 8) lo hi).no_list refl)) (
              Linked-agree s.mem m (s.mem (c + 8)) (free c)
                (words_kept (free c) (λ x lo hi. (q x lo hi).no_object)) i.list);
        };
    cached = h.cached;
  }

-- What `kcalloc` makes of the block `ptr` that `kmalloc` has served in the heap `s`: the heap `s'`.
pub record Cleared {P : Type 0} {alloc : P → P × ℕ} (f : Frames P alloc) (own : Slabs)
    (free : FreeLists) (size ptr : ℕ) (s s' : Heap P) : Type 0 where
  pub words : (k : ℕ) → k < size / 8 → s'.mem (ptr + k * 8) ≡ 0
  pub last : s'.mem (ptr + size / 8 * 8) % 2 ^ (8 * (size % 8)) ≡ 0
  pub outside : (a : ℕ) → (a < ptr) ⊎ (ptr + size ≤ a) → s'.mem a ≡ s.mem a
  pub rest : record s' { mem = s.mem } ≡ s
  pub valid : IsHeap f own free s'

module _ {P : Type 0} {alloc : P → P × ℕ} {f : Frames P alloc} {own : Slabs} {free : FreeLists}
    {s : Heap P} where
  -- In a heap in order whose caches have chains of at most `n` slabs, with a page left, `kcalloc` of 1 to
  -- 1000 bytes ends, with fuel for one slab more, and returns the block that `kmalloc` gives for
  -- `count * size` bytes, with all of them 0. It changes no word outside the block beyond what `kmalloc`
  -- does, and the heap stays in order.
  pub kcalloc-Cleared :
      (n count size : ℕ)
      → IsHeap f own free s
      → Stocked n own s
      → 0 < f.available s.vmm.frames
      → 0 < count * size
      → count * size ≤ 1000
      → (s1 s' : Heap P) × (ptr : ℕ) × (t : Served f own free (count * size) s s1 ptr) × (kmalloc
            alloc
            (suc n)
            (count * size)
            s
          ≡ some (s1, ptr))
        × (kcalloc alloc (suc n) count size s ≡ some (s', ptr))
        × Cleared f t.own' (update t.free' t.slab t.rest) (count * size) ptr s1 s'
  unfolding kcalloc
  kcalloc-Cleared n count size h st left some_size small =
      let total = count * size in
      let (s1, ptr, runs, t) = kmalloc-Served n total h st left some_size small in
      let m = clear_words ptr total s1.mem in
      let exact : mul64 count size ≡ total = omega arith in
      (
        s1,
        record s1 { mem = m },
        ptr,
        t,
        runs,
        ap
              (λ k. kmalloc alloc (suc n) k s >>= (λ (r : Heap P × ℕ). some (
                if r.1 == 0
                then (r.0, 0)
                else (record r.0 { mem = clear_words r.1 k r.0.mem }, r.1))))
              exact
            ∙ rw (runs, ◌>>=◌)
                (ap some (if_false _ _ _ (==-ne ptr 0 (λ e. omega (arith, t.block, e))))),
        record {
          words = clear_words-inside ptr total s1.mem;
          last = clear_words-last ptr total s1.mem;
          outside = clear_words-outside ptr total s1.mem;
          rest = refl;
          valid =
              contents-IsHeap t.valid t.at t.slot (rw (update_self t.free' t.slab t.rest) t.gone) m
                (λ a far. clear_words-outside ptr total s1.mem a (
                  behind a (ptr + total) t.obj t.obj_size t.block (omega (arith, t.block, t.fits))
                    far));
        },
      )
    where
      behind :
          (a end o z : ℕ) {ptr : ℕ}
          → ptr ≡ o + 24
          → end ≤ o + z
          → (a < o) ⊎ (o + z ≤ a)
          → (a < ptr) ⊎ (end ≤ a)
      behind a end o z e k (inl h) = inl (omega arith)
      behind a end o z e k (inr h) = inr (omega arith)
