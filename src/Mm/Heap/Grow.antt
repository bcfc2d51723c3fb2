-- ===== src/Mm/Heap/Grow.antt =====
-- `create_slab` of kernel/src/mm/heap.c: a page that was free becomes a slab whose objects are all
-- free.
use mathlib.Core.Path.{subst}
use ded_os.Base.{
  ℕ, zero, suc, ◌+◌, ◌-◌, ◌*◌, ◌/◌, ◌%◌, ◌^◌, ◌≤◌, ◌<◌, ◌≡◌, refl, ◌≢◌, sym, ◌∙◌, ap, ◌⊎◌, inl, inr,
  Option, none, some, List, [], ◌∷◌, arith, All, Bool, true, false, ◌==◌, ==_iff, ==_self, ==-ne,
  Bool-cases, if◌then◌else◌, if_false,
}
use ded_os.Base.Word.{add64, sub64}
use ded_os.Base.Memory.{update, update_self, update_ne}
use ded_os.Mm.Vmm.Frames.{Frames, Granted}
use ded_os.Mm.Heap.{Heap, SlabCache, create_slab, link_objects}
use ded_os.Mm.Heap.Lists.{
  Linked, row, row-Distinct, link_objects-below, link_objects-above, link_objects-Linked,
}
use ded_os.Mm.Heap.Stock.{Stocked, kept-Stocked}
use ded_os.Mm.Heap.Inv.{Slabs, FreeLists, Slot, IsSlab, IsHeap, pages_apart}
use ded_os.Mm.Heap.Slab.{IsSlab-agree, row-slots, num_objs, objects_fit, some_object}

-- What `create_slab` leaves when a page is left: the slab `b`, which was none, with all its objects
-- free, behind the state `s'`.
pub record Grown {P : Type 0} {alloc : P → P × ℕ} (f : Frames P alloc) (own : Slabs)
    (free : FreeLists) (size : ℕ) (s s' : Heap P) (b : ℕ) : Type 0 where
  pub fresh : own b ≡ none
  pub page : b % 4096 ≡ 0
  pub nonnull : 0 < b
  pub fewer : f.available s'.vmm.frames + 1 ≡ f.available s.vmm.frames
  pub unlinked : s'.mem (b + 16) ≡ 0
  pub outside : (a : ℕ) → (a < b) ⊎ (b + 4096 ≤ a) → s'.mem a ≡ s.mem a
  pub bare : s.caches ≡ [] → s'.caches ≡ []
  pub stocked : (n : ℕ) → Stocked n own s → Stocked n (update own b (some size)) s'
  pub valid :
      IsHeap f (update own b (some size)) (update free b (row (num_objs size) size (b + 24))) s'

module _ {P : Type 0} {alloc : P → P × ℕ} (f : Frames P alloc) {own : Slabs} {free : FreeLists}
    {s : Heap P} (h : IsHeap f own free s) (size : ℕ) (units : size % 32 ≡ 0) (lo : 32 ≤ size)
    (hi : size ≤ 1024) (left : 0 < f.available s.vmm.frames) where
  phys : ℕ
  phys = (alloc s.vmm.frames).1

  new_slab : ℕ
  unfolding phys
  new_slab = phys + s.vmm.hhdm_offset

  grant : Granted P f.held f.available f.limit f.IsReady s.vmm.frames (alloc s.vmm.frames)
  grant = f.grants s.vmm.frames h.ready left

  new_mem : ℕ → ℕ
  unfolding new_slab
  new_mem =
      let b = new_slab in
      link_objects (sub64 (num_objs size) 1) size (b + 24)
        (update (update (update s.mem b size) (b + 16) 0) (b + 8) (b + 24))

  new_state : Heap P
  unfolding new_mem
  new_state = record s { vmm = record s.vmm { frames = (alloc s.vmm.frames).0 }; mem = new_mem }

  create_slab_lem : create_slab alloc size s ≡ (new_state, new_slab)
  unfolding create_slab new_state new_slab phys
  create_slab_lem =
      let wrap : add64 phys s.vmm.hhdm_offset ≡ phys + s.vmm.hhdm_offset =
        omega (arith, grant.bounded, h.offset_fits) in
      if_false _ _ _ (==-ne phys 0 grant.some_page)
      ∙ ap
          (λ b. (
            record s {
              vmm = record s.vmm { frames = (alloc s.vmm.frames).0 };
              mem =
                  link_objects (sub64 (num_objs size) 1) size (b + 24)
                    (update (update (update s.mem b size) (b + 16) 0) (b + 8) (b + 24));
            },
            b,
          ))
          wrap

  new_page : (new_slab % 4096 ≡ 0) × (0 < new_slab)
  unfolding new_slab phys
  new_page = (omega (arith, grant.whole, h.offset_page), pos phys (grant.some_page))
    where
      pos : (n : ℕ) → n ≢ 0 → 0 < n + s.vmm.hhdm_offset
      pos zero ne = absurd (ne refl)
      pos (suc n) ne = omega arith

  new_fresh : own new_slab ≡ none
  unfolding new_slab phys
  new_fresh = none_of (own new_slab) refl
    where
      clash : {A : Type 0} → true ≡ false → A
      clash e = cc

      none_of : (r : Option ℕ) → own new_slab ≡ r → r ≡ none
      none_of none e = refl
      none_of (some z) e =
          let g = h.granted new_slab z e in
          let back : (phys + s.vmm.hhdm_offset - s.vmm.hhdm_offset) ≡ phys = omega arith in
          clash (sym g.1 ∙ ap (λ p. f.held s.vmm.frames (p / 4096)) back ∙ grant.was_free)

  last : sub64 (num_objs size) 1 + 1 ≡ num_objs size
  last = omega (arith, some_object size lo hi, objects_fit size lo)

  new_outside : (a : ℕ) → (a < new_slab) ⊎ (new_slab + 4096 ≤ a) → new_mem a ≡ s.mem a
  unfolding new_mem
  new_outside a (inl lt) =
      link_objects-below (sub64 (num_objs size) 1) size (new_slab + 24) _ a (omega arith)
      ∙ update_ne _ (new_slab + 8) _ a (λ e. omega arith)
      ∙ update_ne _ (new_slab + 16) _ a (λ e. omega arith)
      ∙ update_ne s.mem new_slab size a (λ e. omega arith)
  new_outside a (inr ge) =
      link_objects-above (sub64 (num_objs size) 1) size (new_slab + 24) _ a
        (beyond (sub64 (num_objs size) 1) last (objects_fit size lo))
      ∙ update_ne _ (new_slab + 8) _ a (λ e. omega arith)
      ∙ update_ne _ (new_slab + 16) _ a (λ e. omega arith)
      ∙ update_ne s.mem new_slab size a (λ e. omega arith)
    where
      beyond :
          (n : ℕ)
          → n + 1 ≡ num_objs size
          → num_objs size * size ≤ 4072
          → new_slab + 24 + n * size < a
      beyond n e fit = grind (arith, ap (λ k. k * size) e)

  new_word :
      (a : ℕ)
      → a < new_slab + 24
      → new_mem a
        ≡ update
            (update (update s.mem new_slab size) (new_slab + 16) 0)
            (new_slab + 8)
            (new_slab + 24)
            a
  unfolding new_mem
  new_word a lt = link_objects-below (sub64 (num_objs size) 1) size (new_slab + 24) _ a lt

  new_IsSlab :
      IsSlab new_mem
        (update own new_slab (some size))
        new_slab
        size
        (row (num_objs size) size (new_slab + 24))
  unfolding new_mem
  new_IsSlab =
      let b = new_slab in
      let m1 = update s.mem b size in
      let m2 = update m1 (b + 16) 0 in
      let first = new_word (b + 8) (omega arith) ∙ update_self m2 (b + 8) (b + 24) in
      record {
        units = units;
        some_size = lo;
        page = new_page.0;
        nonnull = new_page.1;
        headed =
            new_word b (omega arith)
            ∙ update_ne m2 (b + 8) _ b (λ e. omega arith)
            ∙ update_ne m1 (b + 16) _ b (λ e. omega arith)
            ∙ update_self s.mem b size;
        chained = inl (
            new_word (b + 16) (omega arith)
            ∙ update_ne m2 (b + 8) _ (b + 16) (λ e. omega arith)
            ∙ update_self m1 (b + 16) 0);
        slots =
            subst (λ c. All (Slot size b) (row (num_objs size) size c)) {x = b + 24 + 0 * size}
              (omega arith)
              (row-slots (num_objs size) 0 size b (omega (arith, objects_fit size lo)));
        distinct = row-Distinct (num_objs size) size (b + 24) (omega arith);
        list = rw first (
            subst (λ n. Linked new_mem (b + 24) (row n size (b + 24)))
              {x = suc (sub64 (num_objs size) 1)} (omega (arith, last))
              (link_objects-Linked (sub64 (num_objs size) 1) size (b + 24) _ (omega arith)
                (omega arith)));
      }

  more_own : (x z : ℕ) → own x ≡ some z → update own new_slab (some size) x ≡ some z
  more_own x z e =
      update_ne own new_slab (some size) x (λ same. none_some (sym (ap own same ∙ new_fresh) ∙ e))
      ∙ e
    where
      none_some : none ≡ some z → ⊥
      none_some e = cc

  split_own :
      (c z : ℕ)
      → update own new_slab (some size) c ≡ some z
      → ((c ≡ new_slab) × (size ≡ z)) ⊎ ((c ≢ new_slab) × (own c ≡ some z))
  split_own c z e = elim (Bool-cases (c == new_slab)) [
    | inl same ↦
        let eq : c ≡ new_slab = (==_iff c new_slab).0 same in
        inl (
          eq,
          same_size (
              sym (update_self own new_slab (some size))
              ∙ sym (ap (update own new_slab (some size)) eq)
              ∙ e),
        )
    | inr apart ↦
        let ne : c ≢ new_slab = λ same. true_false (sym ((==_iff c new_slab).1 same) ∙ apart) in
        inr (ne, sym (update_ne own new_slab (some size) c ne) ∙ e)
  ]
    where
      same_size : {x y : ℕ} → some x ≡ some y → x ≡ y
      same_size e = cc

      true_false : true ≡ false → ⊥
      true_false e = cc

  new_held : f.held (alloc s.vmm.frames).0 ((new_slab - s.vmm.hhdm_offset) / 4096) ≡ true
  unfolding new_slab phys
  new_held =
      let back : phys + s.vmm.hhdm_offset - s.vmm.hhdm_offset ≡ phys = omega arith in
      ap (λ p. f.held (alloc s.vmm.frames).0 (p / 4096)) back
      ∙ grant.now_held (phys / 4096)
      ∙ rw (==_self (phys / 4096))

  new_granted :
      (c z : ℕ)
      → update own new_slab (some size) c ≡ some z
      → (s.vmm.hhdm_offset ≤ c)
        × (f.held (alloc s.vmm.frames).0 ((c - s.vmm.hhdm_offset) / 4096) ≡ true)
        × (c < 2 ^ 64)
  new_granted c z e = elim (split_own c z e) [
    | inl (eq, _) ↦
        subst
          (λ c.
            (s.vmm.hhdm_offset ≤ c)
            × (f.held (alloc s.vmm.frames).0 ((c - s.vmm.hhdm_offset) / 4096) ≡ true)
            × (c < 2 ^ 64))
          (sym eq) (above, new_held, bounded)
    | inr (_, old) ↦
        let g = h.granted c z old in
        (g.0, grant.now_held ((c - s.vmm.hhdm_offset) / 4096) ∙ either _ g.1, g.2)
  ]
    where
      above : s.vmm.hhdm_offset ≤ new_slab
      above = unfold new_slab in omega arith

      bounded : new_slab < 2 ^ 64
      bounded = unfold new_slab phys in omega (arith, grant.bounded, h.offset_fits)

      either : (b : Bool) {x : Bool} → x ≡ true → (if b then true else x) ≡ true
      either true e = refl
      either false e = e

  new_IsHeap :
      IsHeap f
        (update own new_slab (some size))
        (update free new_slab (row (num_objs size) size (new_slab + 24)))
        new_state
  unfolding new_state
  new_IsHeap = record {
    ready = grant.still_ready;
    offset_page = h.offset_page;
    offset_fits = h.offset_fits;
    granted = new_granted;
    slabs = λ c z e. elim (split_own c z e) [
      | inl (eq, z_eq) ↦
          subst (λ c. IsSlab new_mem own' c z (free' c)) (sym eq)
            (subst (λ z. IsSlab new_mem own' new_slab z (free' new_slab)) z_eq
              (subst (λ l. IsSlab new_mem own' new_slab size l) (sym (update_self free new_slab _))
                new_IsSlab))
      | inr (ne, old) ↦
          subst (λ l. IsSlab new_mem own' c z l) (sym (update_ne free new_slab _ c ne))
            (IsSlab-agree new_mem own'
              (λ a lo hi. new_outside a (
                pages_apart new_slab c a new_page.0 (h.slabs c z old).page (λ e. ne (sym e)) lo hi))
              more_own (h.slabs c z old))
    ];
    cached = all_cached s.caches h.cached;
  }
    where
      own' : Slabs
      own' = update own new_slab (some size)

      free' : FreeLists
      free' = update free new_slab (row (num_objs size) size (new_slab + 24))

      all_cached :
          (cs : List SlabCache)
          → All (λ c. (c.first_slab ≡ 0) ⊎ (own c.first_slab ≡ some c.obj_size)) cs
          → All (λ c. (c.first_slab ≡ 0) ⊎ (own' c.first_slab ≡ some c.obj_size)) cs
      all_cached [] all = tt
      all_cached (c ∷ cs) (inl e, all) = (inl e, all_cached cs all)
      all_cached (c ∷ cs) (inr e, all) =
          (inr (more_own c.first_slab c.obj_size e), all_cached cs all)

  -- The new slab.
  pub create_slab-Grown :
      Grown f own free size s (create_slab alloc size s).0 (create_slab alloc size s).1
  unfolding new_state
  create_slab-Grown =
      subst (λ (r : Heap P × ℕ). Grown f own free size s r.0 r.1) (sym create_slab_lem)
        (record {
          fresh = new_fresh;
          page = new_page.0;
          nonnull = new_page.1;
          fewer = grant.fewer;
          unlinked =
              new_word (new_slab + 16) (omega arith)
              ∙ update_ne _ (new_slab + 8) _ (new_slab + 16) (λ e. omega arith)
              ∙ update_self _ (new_slab + 16) 0;
          outside = new_outside;
          bare = λ e. e;
          stocked = λ n st. kept-Stocked h st _ new_mem _ more_own (λ x z e.
              let i = h.slabs x z e in
              new_outside (x + 16) (
                pages_apart new_slab x (x + 16) new_page.0 i.page
                  (λ same. none_some (sym new_fresh ∙ ap own same ∙ e)) (omega arith)
                  (omega arith)));
          valid = new_IsHeap;
        })
    where
      none_some : {z : ℕ} → none ≡ some z → ⊥
      none_some e = cc
