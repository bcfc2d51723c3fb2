-- ===== src/Mm/Heap/Stock.antt =====
-- The chains of slabs behind the caches of kernel/src/mm/heap.c, and how long they are.
use ded_os.Base.{
  ℕ, zero, suc, ◌+◌, ◌≡◌, ◌≢◌, sym, ◌∙◌, ap, ◌⊎◌, inl, inr, some, List, [], ◌∷◌, arith, All, ◌==◌,
  ==_iff, Bool-cases, true, false,
}
use ded_os.Base.Memory.{update, update_self, update_ne}
use mathlib.Core.List.{map}
use ded_os.Mm.Vmm.Frames.{Frames}
use ded_os.Mm.Heap.{Heap, SlabCache, slab_sizes, store}
use ded_os.Mm.Heap.Inv.{Slabs, FreeLists, IsHeap}

-- At most `n` slabs are linked from `p` on.
abbrev pub Ends : (ℕ → ℕ) → ℕ → ℕ → Type 0
Ends m zero p = p ≡ 0
Ends m (suc n) p = (p ≡ 0) ⊎ Ends m n (m (p + 16))

pub Ends-null : (m : ℕ → ℕ) (n p : ℕ) → p ≡ 0 → Ends m n p
Ends-null m zero p e = e
Ends-null m (suc n) p e = inl e

pub Ends-next : (m : ℕ → ℕ) (n p : ℕ) → p ≢ 0 → Ends m (suc n) p → Ends m n (m (p + 16))
Ends-next m n p ne (inl z) = absurd (ne z)
Ends-next m n p ne (inr e) = e

Ends-more : (m : ℕ → ℕ) (n p : ℕ) → Ends m n p → Ends m (suc n) p
Ends-more m zero p e = inl e
Ends-more m (suc n) p (inl e) = inl e
Ends-more m (suc n) p (inr e) = inr (Ends-more m n (m (p + 16)) e)

abbrev Owned : Slabs → ℕ → ℕ → Type 0
Owned own size p = (p ≡ 0) ⊎ (own p ≡ some size)

-- Each cache has a first slab, and at most `n` slabs behind it.
pub record Stocked {P : Type 0} (n : ℕ) (own : Slabs) (s : Heap P) : Type 0 where
  pub sizes : map (λ (c : SlabCache). c.obj_size) s.caches ≡ slab_sizes
  pub chains : All (λ c. (own c.first_slab ≡ some c.obj_size) × Ends s.mem n c.first_slab) s.caches

module _ {P : Type 0} {alloc : P → P × ℕ} {f : Frames P alloc} {own : Slabs} {free : FreeLists}
    {s : Heap P} (h : IsHeap f own free s) where
  -- The links of the slabs stay as they are.
  Ends-kept :
      (m : ℕ → ℕ) (n size p : ℕ)
      → ((x z : ℕ) → own x ≡ some z → m (x + 16) ≡ s.mem (x + 16))
      → Owned own size p
      → Ends s.mem n p
      → Ends m n p
  Ends-kept m n size p same (inl z) e = Ends-null m n p z
  Ends-kept m zero size p same (inr o) e = e
  Ends-kept m (suc n) size p same (inr o) (inl z) = inl z
  Ends-kept m (suc n) size p same (inr o) (inr e) =
      inr
        (rw (same p size o) (Ends-kept m n size (s.mem (p + 16)) same (h.slabs p size o).chained e))

  -- The link of one slab that was the last goes to a slab with none behind it.
  Ends-linked :
      (b new n size p : ℕ)
      → s.mem (b + 16) ≡ 0
      → s.mem (new + 16) ≡ 0
      → new ≢ b
      → Owned own size p
      → Ends s.mem n p
      → Ends (update s.mem (b + 16) new) (suc n) p
  Ends-linked b new n size p last tail ne (inl z) e = inl z
  Ends-linked b new zero size p last tail ne (inr o) e = inl e
  Ends-linked b new (suc n) size p last tail ne (inr o) (inl z) = inl z
  Ends-linked b new (suc n) size p last tail ne (inr o) (inr e) = elim (Bool-cases (p == b)) [
    | inl same ↦
        let m = update s.mem (b + 16) new in
        let eq : p ≡ b = (==_iff p b).0 same in
        let here : m (p + 16) ≡ new = ap (λ p. m (p + 16)) eq ∙ update_self s.mem (b + 16) new in
        let there : m (new + 16) ≡ 0 =
          update_ne s.mem (b + 16) new (new + 16) (λ e. ne (omega arith)) ∙ tail in
        inr (rw here (inr (Ends-null m n (m (new + 16)) there)))
    | inr apart ↦
        let away = λ (e : p + 16 ≡ b + 16). clash (sym ((==_iff p b).1 (omega arith)) ∙ apart) in
        inr (
          rw (update_ne s.mem (b + 16) new (p + 16) away)
            (Ends-linked b new n size (s.mem (p + 16)) last tail ne (h.slabs p size o).chained e))
  ]
    where
      clash : {A : Type 0} → true ≡ false → A
      clash e = cc

  module _ {n : ℕ} (st : Stocked n own s) where
    pub more-Stocked : Stocked (suc n) own s
    more-Stocked = record { sizes = st.sizes; chains = go s.caches st.chains }
      where
        go :
            (cs : List SlabCache)
            → All (λ c. (own c.first_slab ≡ some c.obj_size) × Ends s.mem n c.first_slab) cs
            → All (λ c. (own c.first_slab ≡ some c.obj_size) × Ends s.mem (suc n) c.first_slab) cs
        go [] all = tt
        go (c ∷ cs) ((o, e), all) = ((o, Ends-more s.mem n c.first_slab e), go cs all)

    pub kept-Stocked :
        (own' : Slabs) (m : ℕ → ℕ) (v : _)
        → ((x z : ℕ) → own x ≡ some z → own' x ≡ some z)
        → ((x z : ℕ) → own x ≡ some z → m (x + 16) ≡ s.mem (x + 16))
        → Stocked n own' (record s { mem = m; vmm = v })
    kept-Stocked own' m v more same = record { sizes = st.sizes; chains = go s.caches st.chains }
      where
        go :
            (cs : List SlabCache)
            → All (λ c. (own c.first_slab ≡ some c.obj_size) × Ends s.mem n c.first_slab) cs
            → All (λ c. (own' c.first_slab ≡ some c.obj_size) × Ends m n c.first_slab) cs
        go [] all = tt
        go (c ∷ cs) ((o, e), all) = (
          (more c.first_slab c.obj_size o, Ends-kept m n c.obj_size c.first_slab same (inr o) e),
          go cs all,
        )

    pub linked-Stocked :
        (b new : ℕ)
        → s.mem (b + 16) ≡ 0
        → s.mem (new + 16) ≡ 0
        → new ≢ b
        → Stocked (suc n) own (store (b + 16) new s)
    linked-Stocked b new last tail ne = record { sizes = st.sizes; chains = go s.caches st.chains }
      where
        go :
            (cs : List SlabCache)
            → All (λ c. (own c.first_slab ≡ some c.obj_size) × Ends s.mem n c.first_slab) cs
            → All
                (λ c.
                  (own c.first_slab ≡ some c.obj_size)
                  × Ends (update s.mem (b + 16) new) (suc n) c.first_slab)
                cs
        go [] all = tt
        go (c ∷ cs) ((o, e), all) =
            ((o, Ends-linked b new n c.obj_size c.first_slab last tail ne (inr o) e), go cs all)
