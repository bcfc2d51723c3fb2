-- ===== src/Fs/KernelHeap.antt =====
-- The kernel's own heap, kernel/src/mm/heap.c, under the files of kernel/src/fs: within its contract, its
-- kmalloc and kfree are what the files rely on.
use native.Mathlib.Decide.{dec_le, dec_lt}
use ded_os.Base.{
  ℕ, zero, suc, ◌-◌, ◌<◌, ◌≤◌, ◌≡◌, refl, ◌≢◌, sym, ◌∙◌, ap, ◌⊎◌, inl, inr, Bool, true, false,
  Option, none, some, List, [], ◌∷◌, arith, ◌==◌, ==-ne, ==_iff, Bool-cases, if◌then◌else◌, if_true,
  if_false, get_elem?,
}
use ded_os.Mm.Vmm.Frames.{Frames}
use ded_os.Mm.Heap.{Heap, kmalloc, kfree}
use ded_os.Mm.Heap.History.{Block}
use ded_os.Mm.Heap.Run.{remove, New, AllNew}
use ded_os.Mm.Heap.Held.{All-get}
use ded_os.Mm.Heap.Sound.{IsSound, take-IsSound}
use ded_os.Mm.Heap.Return.{give_back-IsSound}
use ded_os.Mm.Heap.Kmalloc.{Served, kmalloc-Served}
use ded_os.Fs.Inv.{Allocator}

-- A block starts at `j`.
abbrev pub holds : List Block → ℕ → Bool
holds [] j = false
holds (b ∷ bs) j = if j == b.ptr then true else holds bs j

pub New-holds : (b : Block) (bs : List Block) → New b bs → holds bs b.ptr ≡ false
New-holds b [] new = refl
New-holds b (c ∷ cs) (ne, new) = if_false _ _ _ (==-ne b.ptr c.ptr ne) ∙ New-holds b cs new

holds-remove :
    (bs : List Block) (i : ℕ) {b : Block} (j : ℕ)
    → get_elem? bs i ≡ some b
    → AllNew bs
    → holds (remove i bs) j ≡ (if j == b.ptr then false else holds bs j)
unfolding remove
holds-remove [] i j e all = cc
holds-remove (y ∷ ys) zero {b} j e (new, all) =
    by (Bool-cases (j == y.ptr)) ∙ ap (λ p. if j == p then false else holds (y ∷ ys) j) (ptr_eq e)
  where
    ptr_eq : some y ≡ some b → y.ptr ≡ b.ptr
    ptr_eq e = cc

    by :
        ((j == y.ptr) ≡ true) ⊎ ((j == y.ptr) ≡ false)
        → holds ys j ≡ (if j == y.ptr then false else holds (y ∷ ys) j)
    by (inl same) =
        ap (holds ys) ((==_iff j y.ptr).0 same) ∙ New-holds y ys new ∙ sym (if_true _ _ _ same)
    by (inr apart) = sym (if_false _ _ _ apart ∙ if_false _ _ _ apart)
holds-remove (y ∷ ys) (suc i) {b} j e (new, all) =
    let other : y.ptr ≢ b.ptr = All-get (λ c. y.ptr ≢ c.ptr) ys i e new in
    ground (arith, holds-remove ys i j e all, other)

-- Where the block that starts at `a` stands in the list.
abbrev Location : List Block → ℕ → Type 0
Location bs a = (i : ℕ) × (b : Block) × (get_elem? bs i ≡ some b) × (b.ptr ≡ a)

place :
    (a : ℕ) (b : Block) (bs : List Block)
    → ((b.ptr == a) ≡ true) ⊎ ((b.ptr == a) ≡ false)
    → Option (Location bs a)
    → Option (Location (b ∷ bs) a)
place a b bs (inl at) rest = some (0, b, refl, (==_iff b.ptr a).0 at)
place a b bs (inr other) none = none
place a b bs (inr other) (some l) = some (suc l.0, l.1, l.2, l.3)

locate : (a : ℕ) (bs : List Block) → Option (Location bs a)
unfolding place
locate a [] = none
locate a (b ∷ bs) = place a b bs (Bool-cases (b.ptr == a)) (locate a bs)

located :
    (a : ℕ) (bs : List Block) → holds bs a ≡ true → (l : Location bs a) × (locate a bs ≡ some l)
unfolding locate place
located a [] e = cc
located a (b ∷ bs) e = by (Bool-cases (b.ptr == a)) (locate a bs) (located a bs)
  where
    by :
        (c : ((b.ptr == a) ≡ true) ⊎ ((b.ptr == a) ≡ false)) (r : Option (Location bs a))
        → (holds bs a ≡ true → (l : Location bs a) × (r ≡ some l))
        → (l : Location (b ∷ bs) a) × (place a b bs c r ≡ some l)
    by (inl at) r rest = ((0, b, refl, (==_iff b.ptr a).0 at), refl)
    by (inr other) r rest =
        let (l, e') = rest (ground (arith, e, other)) in
        ((suc l.0, l.1, l.2, l.3), ap (place a b bs (inr other)) e')

-- The heap between two calls: the blocks that are held, and pages for `left` more.
pub record Tracked {P : Type 0} {alloc : P → P × ℕ} (f : Frames P alloc) : Type 0 where
  pub slabs : ℕ
  pub left : ℕ
  pub heap : Heap P
  pub held : List Block
  pub sound : IsSound f slabs left heap held

module _ {P : Type 0} {alloc : P → P × ℕ} (f : Frames P alloc) (release : P → ℕ → P) where
  -- The requests that are within the contract.
  abbrev IsSure : ℕ → Tracked f → Type 0
  IsSure size h = (0 < size) × (size ≤ 1000) × (0 < h.left)

  is_sure : (size : ℕ) (h : Tracked f) → Dec (IsSure size h)
  is_sure size h = elim (dec_lt 0 size) [
    | no none_asked ↦ no (λ s. none_asked s.0)
    | yes some_asked ↦ elim (dec_le size 1000) [
      | no large ↦ no (λ s. large s.1)
      | yes small ↦ elim (dec_lt 0 h.left) [
        | no spent ↦ no (λ s. spent s.2)
        | yes more ↦ yes (some_asked, small, more)
      ]
    ]
  ]

  -- Room for one block, and for as many as are left then.
  one_more : (h : Tracked f) → 0 < h.left → IsSound f h.slabs (suc (h.left - 1)) h.heap h.held
  one_more h more = record {
    own = h.sound.own;
    free = h.sound.free;
    valid = h.sound.valid;
    stocked = h.sound.stocked;
    pages = omega (arith, h.sound.pages);
    live = h.sound.live;
    apart = h.sound.apart;
  }

  Result : ℕ → (h : Tracked f) → 0 < h.left → Type 0
  Result size h more =
      (s' : Heap P) × (ptr : ℕ) × (kmalloc alloc (suc h.slabs) size h.heap ≡ some (s', ptr))
      × Served f (one_more h more).own (one_more h more).free size h.heap s' ptr

  served : (size : ℕ) (h : Tracked f) (sure : IsSure size h) → Result size h sure.2
  unfolding Result
  served size h (some_asked, small, more) =
      let i = one_more h more in
      kmalloc-Served h.slabs size i.valid i.stocked (omega (arith, i.pages)) some_asked small

  after : (size : ℕ) (h : Tracked f) → IsSure size h → Tracked f
  unfolding Result
  after size h sure =
      let (s', ptr, runs, v) = served size h sure in
      record {
        slabs = suc h.slabs;
        left = h.left - 1;
        heap = s';
        held = record { ptr = ptr; size = size } ∷ h.held;
        sound = take-IsSound size ptr (one_more h sure.2) v;
      }

  -- `kmalloc` with fuel for the slabs; a request outside of the contract is not made.
  answer : (size : ℕ) (h : Tracked f) → Dec (IsSure size h) → Tracked f × ℕ
  unfolding after Result
  answer size h (yes sure) = (after size h sure, (served size h sure).1)
  answer size h (no unsure) = (h, 0)

  pub tracked_kmalloc : ℕ → Tracked f → Tracked f × ℕ
  unfolding answer
  tracked_kmalloc size h = answer size h (is_sure size h)

  -- `kfree` of a block that is held; another address is not given back.
  give_back : (a : ℕ) (h : Tracked f) → Option (Location h.held a) → Tracked f
  give_back a h none = h
  give_back a h (some (i, b, e, at)) = record {
    slabs = h.slabs;
    left = h.left;
    heap = kfree release b.ptr h.heap;
    held = remove i h.held;
    sound = give_back-IsSound release f i b h.sound e;
  }

  pub tracked_kfree : ℕ → Tracked f → Tracked f
  unfolding give_back
  tracked_kfree a h = give_back a h (locate a h.held)

  -- Within the contract, the answer is what `kmalloc` gives.
  tracked :
      (size : ℕ) (h : Tracked f)
      → IsSure size h
      → (sure : IsSure size h) × (tracked_kmalloc size h ≡ answer size h (yes sure))
  unfolding tracked_kmalloc
  tracked size h sure = by (is_sure size h)
    where
      by :
          (d : Dec (IsSure size h))
          → (sure : IsSure size h) × (answer size h d ≡ answer size h (yes sure))
      by (yes sure') = (sure', refl)
      by (no unsure) = absurd (unsure sure)

  -- A request of 1 to 1000 bytes, with pages left, is the kernel's `kmalloc`, with fuel for one slab more
  -- than the longest chain has.
  pub tracked_kmalloc-kmalloc :
      (size : ℕ) (h : Tracked f)
      → 0 < size
      → size ≤ 1000
      → 0 < h.left
      → kmalloc alloc (suc h.slabs) size h.heap
        ≡ some ((tracked_kmalloc size h).0.heap, (tracked_kmalloc size h).1)
  unfolding answer after Result
  tracked_kmalloc-kmalloc size h some_asked small more =
      let (sure, e) = tracked size h (some_asked, small, more) in
      (served size h sure).2 ∙ ap (λ (r : Tracked f × ℕ). some (r.0.heap, r.1)) (sym e)

  -- `kfree` of a block that is held is the kernel's.
  pub tracked_kfree-kfree :
      (a : ℕ) (h : Tracked f)
      → holds h.held a ≡ true
      → (tracked_kfree a h).heap ≡ kfree release a h.heap
  unfolding tracked_kfree give_back
  tracked_kfree-kfree a h e =
      let (l, at) = located a h.held e in
      ap (λ l. (give_back a h l).heap) at ∙ ap (λ p. kfree release p h.heap) l.3

  -- The kernel's heap is an allocator for the files, with requests of 1 to 1000 bytes for the pages left.
  pub kernel_heap : Allocator (Tracked f) tracked_kmalloc tracked_kfree
  unfolding answer after Result tracked_kfree give_back
  kernel_heap = record {
    used = λ h j. holds h.held j;
    left = λ h. h.left;
    largest = 1000;
    node_room = omega arith;
    nonnull = λ n h p q m.
        let (sure, e) = tracked n h (p, q, m) in
        λ z. omega (arith, (served n h sure).3.block, ap (λ (r : Tracked f × ℕ). r.1) e, z);
    fresh = λ n h p q m.
        let (sure, e) = tracked n h (p, q, m) in
        ap (λ (r : Tracked f × ℕ). holds h.held r.1) e
        ∙ New-holds (record { ptr = (served n h sure).1; size = n }) h.held
            (after n h sure).sound.apart.0;
    taken = λ n h j p q m.
        let (sure, e) = tracked n h (p, q, m) in
        ap (λ (r : Tracked f × ℕ). holds r.0.held j) e
        ∙ ap (λ (r : Tracked f × ℕ). if j == r.1 then true else holds h.held j) (sym e);
    fewer = λ n h p q m.
        let (sure, e) = tracked n h (p, q, m) in
        omega (arith, ap (λ (r : Tracked f × ℕ). r.0.left) e);
    freed = λ a h j used.
        let (l, at) = located a h.held used in
        ap (λ l. holds (give_back a h l).held j) at
        ∙ holds-remove h.held l.0 j l.2 h.sound.apart
        ∙ ap (λ p. if j == p then false else holds h.held j) l.3;
    kept = λ a h used.
        let (l, at) = located a h.held used in omega (arith, ap (λ l. (give_back a h l).left) at);
  }

  -- As many requests are sure as pages are left, and of up to 1000 bytes.
  pub kernel_heap-left : (h : Tracked f) → kernel_heap.left h ≡ h.left
  unfolding kernel_heap
  kernel_heap-left h = refl

  pub kernel_heap-largest : kernel_heap.largest ≡ 1000
  unfolding kernel_heap
  kernel_heap-largest = refl
