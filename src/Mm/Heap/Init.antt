-- ===== src/Mm/Heap/Init.antt =====
-- `heap_init` of kernel/src/mm/heap.c, and the requests that `kmalloc` refuses.
use ded_os.Base.{
  ℕ, ◌+◌, ◌%◌, ◌^◌, ◌≤◌, ◌<◌, ◌≡◌, refl, ◌≢◌, sym, ◌∙◌, ap, ◌⊎◌, inr, none, some, List, [], ◌∷◌,
  arith, All, length, ltb, ==-ne, false, if_false,
}
use mathlib.Core.List.{map}
use ded_os.Base.Memory.{update, update_self, update_ne}
use ded_os.Base.Word.{add64}
use ded_os.Mm.Vmm.Frames.{Frames}
use ded_os.Mm.Heap.{
  Heap, SlabCache, slab_sizes, create_slab, create_caches, heap_init, kmalloc, alloc_object,
  find_cache,
}
use ded_os.Mm.Heap.Inv.{Slabs, FreeLists, IsHeap, pages_apart}
use ded_os.Mm.Heap.Stock.{Ends, Stocked}
use ded_os.Mm.Heap.Grow.{create_slab-Grown}
use ded_os.Mm.Heap.Kmalloc.{IsSize, sizes_good}

module _ {P : Type 0} {alloc : P → P × ℕ} (f : Frames P alloc) where
  -- The slabs that the loop has made, over those before.
  record Made (sizes : List ℕ) (own : Slabs) (s s' : Heap P) : Type 0 where
    own' : Slabs
    free' : FreeLists
    keeps : (x z : ℕ) → own x ≡ some z → own' x ≡ some z
    links : (x z : ℕ) → own x ≡ some z → s'.mem (x + 16) ≡ s.mem (x + 16)
    sized : map (λ (c : SlabCache). c.obj_size) s'.caches ≡ sizes
    chains :
        All
          (λ c. (own' c.first_slab ≡ some c.obj_size) × (s'.mem (c.first_slab + 16) ≡ 0))
          s'.caches
    valid : IsHeap f own' free' s'

  weaken :
      (own : Slabs) (m : ℕ → ℕ) (cs : List SlabCache)
      → All (λ c. (own c.first_slab ≡ some c.obj_size) × (m (c.first_slab + 16) ≡ 0)) cs
      → All (λ c. (c.first_slab ≡ 0) ⊎ (own c.first_slab ≡ some c.obj_size)) cs
  weaken own m [] all = tt
  weaken own m (c ∷ cs) ((o, _), all) = (inr o, weaken own m cs all)

  create_caches-Made :
      (sizes : List ℕ) {own : Slabs} {free : FreeLists} (s : Heap P)
      → s.caches ≡ []
      → All IsSize sizes
      → IsHeap f own free s
      → length sizes ≤ f.available s.vmm.frames
      → Made sizes own s (create_caches alloc sizes s)
  unfolding create_caches
  create_caches-Made [] {own} {free} s bare ok h pages = record {
    own' = own;
    free' = free;
    keeps = λ x z e. e;
    links = λ x z e. refl;
    sized = ap (map (λ (c : SlabCache). c.obj_size)) bare;
    chains = rw bare tt;
    valid = h;
  }
  create_caches-Made (size ∷ sizes) {own} {free} s bare ((units, lo, hi), ok) h pages =
      let b = (create_slab alloc size s).1 in
      let s1 : Heap P = (create_slab alloc size s).0 in
      let g = create_slab-Grown f h size units lo hi (omega arith) in
      let own1 = update own b (some size) in
      let m = create_caches-Made sizes s1 (g.bare bare) ok g.valid (omega (arith, g.fewer)) in
      let more : (x z : ℕ) → own x ≡ some z → x ≢ b = λ x z e. fresh_ne own b g.fresh x z e in
      let first : m.own' b ≡ some size = m.keeps b size (update_self own b (some size)) in
      record {
        own' = m.own';
        free' = m.free';
        keeps = λ x z e. m.keeps x z (update_ne own b (some size) x (more x z e) ∙ e);
        links = λ x z e.
            m.links x z (update_ne own b (some size) x (more x z e) ∙ e)
            ∙ g.outside (x + 16) (
                pages_apart b x (x + 16) g.page (h.slabs x z e).page (λ q. more x z e (sym q))
                  (omega arith) (omega arith));
        sized = ap (λ l. size ∷ l) m.sized;
        chains = ((first, m.links b size (update_self own b (some size)) ∙ g.unlinked), m.chains);
        valid = record {
          ready = m.valid.ready;
          offset_page = m.valid.offset_page;
          offset_fits = m.valid.offset_fits;
          granted = m.valid.granted;
          slabs = m.valid.slabs;
          cached = (
            inr first,
            weaken m.own' (create_caches alloc sizes s1).mem (create_caches alloc sizes s1).caches
                m.chains,
          );
        };
      }
    where
      fresh_ne : (own : Slabs) (b : ℕ) → own b ≡ none → (x z : ℕ) → own x ≡ some z → x ≢ b
      fresh_ne own b fresh x z e same = none_some (sym fresh ∙ sym (ap own same) ∙ e)
        where
          none_some : none ≡ some z → ⊥
          none_some e = cc

  -- With six pages left, at a page-aligned offset of the direct map, `heap_init` builds a heap in order
  -- whose six caches have one slab each.
  pub heap_init-IsHeap :
      (s : Heap P)
      → f.IsReady s.vmm.frames
      → s.vmm.hhdm_offset % 4096 ≡ 0
      → f.limit + s.vmm.hhdm_offset ≤ 2 ^ 64
      → 6 ≤ f.available s.vmm.frames
      → (own : Slabs) × (free : FreeLists) × IsHeap f own free (heap_init alloc s)
        × Stocked 1 own (heap_init alloc s)
  unfolding heap_init
  heap_init-IsHeap s ready page fits pages =
      let m =
        create_caches-Made slab_sizes {own = λ x. none} {free = λ x. []} (record s { caches = [] })
          refl sizes_good
          (record {
            ready = ready;
            offset_page = page;
            offset_fits = fits;
            granted = λ b size e. absurd (none_some e);
            slabs = λ b size e. absurd (none_some e);
            cached = tt;
          })
          (omega arith) in
      (
        m.own',
        m.free',
        m.valid,
        record {
          sizes = m.sized;
          chains =
              one m.own' (create_caches alloc slab_sizes (record s { caches = [] })).mem
                (create_caches alloc slab_sizes (record s { caches = [] })).caches m.chains;
        },
      )
    where
      none_some : {z : ℕ} → none ≡ some z → ⊥
      none_some e = cc

      one :
          (own : Slabs) (m : ℕ → ℕ) (cs : List SlabCache)
          → All (λ c. (own c.first_slab ≡ some c.obj_size) × (m (c.first_slab + 16) ≡ 0)) cs
          → All (λ c. (own c.first_slab ≡ some c.obj_size) × Ends m 1 c.first_slab) cs
      one own m [] all = tt
      one own m (c ∷ cs) ((o, e), all) = ((o, inr e), one own m cs all)

module _ {P : Type 0} (alloc : P → P × ℕ) where
  none_large :
      (total : ℕ) (cs : List SlabCache)
      → All (λ c. c.obj_size < total) cs
      → find_cache total cs ≡ none
  unfolding find_cache
  none_large total [] all = refl
  none_large total (c ∷ cs) (lt, all) = ground (arith, none_large total cs all)

  small_caches :
      (total : ℕ) (cs : List SlabCache) (sizes : List ℕ)
      → map (λ (c : SlabCache). c.obj_size) cs ≡ sizes
      → All (λ z. z < total) sizes
      → All (λ c. c.obj_size < total) cs
  small_caches total [] sizes e all = tt
  small_caches total (c ∷ cs) [] e all = cc
  small_caches total (c ∷ cs) (z ∷ zs) e (lt, all) =
      (omega (arith, head_eq e), small_caches total cs zs (tail_eq e) all)
    where
      head_eq : c.obj_size ∷ map (λ (c : SlabCache). c.obj_size) cs ≡ z ∷ zs → c.obj_size ≡ z
      head_eq e = cc

      tail_eq :
          c.obj_size ∷ map (λ (c : SlabCache). c.obj_size) cs ≡ z ∷ zs
          → map (λ (c : SlabCache). c.obj_size) cs ≡ zs
      tail_eq e = cc

  -- With the caches of `heap_init`, a request of 1001 to 1024 bytes fits no cache with its header and is
  -- no large block: `kmalloc` returns NULL and changes nothing, however much memory is left.
  pub kmalloc-refuses :
      (fuel size : ℕ) (s : Heap P)
      → map (λ (c : SlabCache). c.obj_size) s.caches ≡ slab_sizes
      → 1000 < size
      → size ≤ 1024
      → kmalloc alloc fuel size s ≡ some (s, 0)
  unfolding kmalloc alloc_object
  kmalloc-refuses fuel size s sizes lo hi =
      if_false _ _ _ (==-ne size 0 (λ e. omega arith))
      ∙ if_false _ _ _ (ltb_false 1024 size hi)
      ∙ rw
          (
            none_large (add64 size 24) s.caches
                (small_caches (add64 size 24) s.caches slab_sizes sizes (omega arith)),
            alloc_object,
          )
          refl
    where
      ltb_false : (a b : ℕ) → b ≤ a → ltb a b ≡ false
      ltb_false a b h = ground arith
