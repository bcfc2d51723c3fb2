-- ===== src/Mm/Vmm/Map.antt =====
-- `vmm_map` and `vmm_unmap` of kernel/src/mm/vmm.c against `vmm_get_phys`.
use Prim.Native.Nat.{bit_and, bit_or}
use mathlib.Core.Path.{subst}
use ded_os.Base.{
  ℕ, ◌+◌, ◌*◌, ◌/◌, ◌%◌, ◌^◌, ◌≤◌, ◌<◌, ◌≡◌, refl, ◌≢◌, sym, ◌∙◌, ap, inl, inr, true, false, some,
  List, [], ◌∷◌, arith, ◌==◌, ==-ne, if◌then◌else◌, if_false, if_both, get_or, length,
}
use ded_os.Base.OrBits.{bit_or-page}
use ded_os.Mm.Vmm.{
  Vmm, is_present, frame_of, entry, set_entry, target, index_at, vmm_get_phys, vmm_map,
  get_or_create, vmm_present, vmm_write, vmm_user,
}
use ded_os.Mm.Vmm.Frames.{Frames}
use ded_os.Mm.Vmm.Tree.{Owner, Indices, IsTree, walk}
use ded_os.Mm.Vmm.Create.{Created, get_or_create-Created}
use ded_os.Mm.Vmm.Lookup.{
  path_of, path_of-Indices, vmm_get_phys-walk, walk-step, onto, entry_above, walk_written,
  walk_at_leaf,
}

-- Addresses of one page have the same indices, and no others in 48 bits.
pub page_of : ℕ → ℕ
page_of virt = virt / 4096 % 2 ^ 36

same_page : (x y : ℕ) → onto (path_of x) [] ≡ onto (path_of y) [] → page_of x ≡ page_of y
unfolding page_of
same_page x y e = omega (arith, i1, i2, i3, i4)
  where
    i1 : index_at 12 x ≡ index_at 12 y
    i1 = ap (λ l. get_or l 0 0) e

    i2 : index_at 21 x ≡ index_at 21 y
    i2 = ap (λ l. get_or l 1 0) e

    i3 : index_at 30 x ≡ index_at 30 y
    i3 = ap (λ l. get_or l 2 0) e

    i4 : index_at 39 x ≡ index_at 39 y
    i4 = ap (λ l. get_or l 3 0) e

abbrev pub table_flags : ℕ → ℕ
table_flags flags =
    if bit_and flags vmm_user == 0
    then bit_or vmm_present vmm_write
    else bit_or (bit_or vmm_present vmm_write) vmm_user

table_flags-bounds : (flags : ℕ) → (table_flags flags < 4096) × (table_flags flags % 2 ≡ 1)
table_flags-bounds flags =
    if_both (λ n. (n < 4096) × (n % 2 ≡ 1)) (bit_and flags vmm_user == 0) (omega arith, refl)
      (omega arith, refl)

-- `virt` is mapped at `phys`, and no other page changed.
pub record Mapped {P : Type 0} (root virt phys : ℕ) (s s' : Vmm P) : Type 0 where
  pub here : vmm_get_phys root virt s' ≡ phys
  pub elsewhere :
      (other : ℕ)
      → page_of other ≢ page_of virt
      → vmm_get_phys root other s' ≡ vmm_get_phys root other s

-- Entry `i` of table `t` leads to table `c`.
pub record Link {P : Type 0} (s : Vmm P) (t i c : ℕ) : Type 0 where
  pub there : is_present (entry s t i) ≡ true
  pub leads : target s (entry s t i) ≡ c

Link-kept :
    {P : Type 0} {alloc : P → P × ℕ} {f : Frames P alloc} {own own' : Owner} {s s' : Vmm P}
    {t i : ℕ} {p : List ℕ} {c : ℕ} (u j d : ℕ) (q : List ℕ)
    → Created f own s t i p own' s' c
    → own u ≡ some q
    → j < 512
    → Link s u j d
    → Link s' u j d
Link-kept {s = s} {s' = s'} u j d q made e hj l =
    let same = made.entries u j q e hj l.there in
    record {
      there = ap is_present same ∙ l.there;
      leads =
          ap (λ o. (frame_of (entry s' u j) + o) % 2 ^ 64) made.same_offset
          ∙ ap (target s) same
          ∙ l.leads;
    }

-- The three tables below `root` on the way to the last level, in the state `s`.
pub record Chain {P : Type 0} {alloc : P → P × ℕ} (f : Frames P alloc) (own : Owner) (s : Vmm P)
    (root i4 i3 i2 pdpt pd pt : ℕ) : Type 0 where
  pub tree : IsTree f own s
  pub at_root : own root ≡ some []
  pub at_pdpt : own pdpt ≡ some (i4 ∷ [])
  pub at_pd : own pd ≡ some (i3 ∷ i4 ∷ [])
  pub at_pt : own pt ≡ some (i2 ∷ i3 ∷ i4 ∷ [])
  pub link4 : Link s root i4 pdpt
  pub link3 : Link s pdpt i3 pd
  pub link2 : Link s pd i2 pt

module _ {P : Type 0} {alloc : P → P × ℕ} {f : Frames P alloc} {own : Owner} {s : Vmm P}
    {root pdpt pd pt : ℕ} (virt : ℕ)
    (ch : Chain f own s root (index_at 39 virt) (index_at 30 virt) (index_at 21 virt) pdpt pd pt)
    (e : ℕ) where
  Link-above :
      (u j d : ℕ) (q : List ℕ)
      → own u ≡ some q
      → length q < 3
      → j < 512
      → Link s u j d
      → Link (set_entry pt (index_at 12 virt) e s) u j d
  Link-above u j d q eu hq hj l =
      let same =
        entry_above f ch.tree pt (index_at 12 virt) e _ ch.at_pt refl (omega arith) u j q eu hq
          hj in
      record { there = ap is_present same ∙ l.there; leads = ap (target s) same ∙ l.leads }

  -- A write at the end of the chain decides where `virt` leads.
  pub chain_here : vmm_get_phys root virt (set_entry pt (index_at 12 virt) e s) ≡ frame_of e
  chain_here =
      let l4 =
        Link-above root (index_at 39 virt) pdpt _ ch.at_root (omega arith) (omega arith) ch.link4 in
      let l3 =
        Link-above pdpt (index_at 30 virt) pd _ ch.at_pdpt (omega arith) (omega arith) ch.link3 in
      let l2 =
        Link-above pd (index_at 21 virt) pt _ ch.at_pd (omega arith) (omega arith) ch.link2 in
      let s' = set_entry pt (index_at 12 virt) e s in
      vmm_get_phys-walk root virt s'
      ∙ walk-step s' root _ _ pdpt _ l4.there l4.leads
      ∙ walk-step s' pdpt _ _ pd _ l3.there l3.leads
      ∙ walk-step s' pd _ _ pt _ l2.there l2.leads
      ∙ walk_at_leaf f ch.tree pt (index_at 12 virt) e _ ch.at_pt refl (omega arith)

  -- It changes nothing for another page.
  pub chain_elsewhere :
      (other : ℕ)
      → page_of other ≢ page_of virt
      → vmm_get_phys root other (set_entry pt (index_at 12 virt) e s) ≡ vmm_get_phys root other s
  chain_elsewhere other apart =
      let s' = set_entry pt (index_at 12 virt) e s in
      elim (walk_written f ch.tree pt (index_at 12 virt) e _ ch.at_pt refl (omega arith) root []
        (path_of other) ch.at_root refl (path_of-Indices other)) [
          | inl reached ↦ absurd (apart (same_page other virt reached))
          | inr kept ↦ vmm_get_phys-walk root other s' ∙ kept ∙ sym (vmm_get_phys-walk root other s)
        ]

module _ {P : Type 0} {alloc : P → P × ℕ} (f : Frames P alloc) {own : Owner} {s : Vmm P}
    (tr : IsTree f own s) (root : ℕ) (at : own root ≡ some []) where
  owned_ne :
      {own' : Owner} (t : ℕ) (p : List ℕ) (s' : Vmm P)
      → IsTree f own' s'
      → own' t ≡ some p
      → (t == 0) ≡ false
  owned_ne t p s' tr' e = ==-ne t 0 (λ z. omega (arith, tr'.mapped t p e, tr'.offset_some))

  -- What three calls of `get_or_create` in a row leave.
  record Made (i4 i3 i2 : ℕ) (s1 : Vmm P) (pdpt pd pt : ℕ) : Type 0 where
    owner : Owner
    chain : Chain f owner s1 root i4 i3 i2 pdpt pd pt
    some_pdpt : (pdpt == 0) ≡ false
    some_pd : (pd == 0) ≡ false
    some_pt : (pt == 0) ≡ false
    walks : (js : List ℕ) → length js ≡ 4 → Indices js → walk s1 root js ≡ walk s root js

  make :
      (i4 i3 i2 fl : ℕ)
      → i4 < 512
      → i3 < 512
      → i2 < 512
      → (fl < 4096) × (fl % 2 ≡ 1)
      → 3 ≤ f.available s.frames
      → let r3 = get_or_create alloc root i4 fl s in
        let r2 = get_or_create alloc r3.1 i3 fl r3.0 in
        let r1 = get_or_create alloc r2.1 i2 fl r2.0 in Made i4 i3 i2 r1.0 r3.1 r2.1 r1.1
  make i4 i3 i2 fl h4 h3 h2 (bound, odd) left =
      let r3 = get_or_create alloc root i4 fl s in
      let r2 = get_or_create alloc r3.1 i3 fl r3.0 in
      let r1 = get_or_create alloc r2.1 i2 fl r2.0 in
      let (own3, c3) =
        get_or_create-Created f tr root i4 [] at (omega arith) h4 fl bound odd (omega arith) in
      let (own2, c2) =
        get_or_create-Created f c3.tree r3.1 i3 (i4 ∷ []) c3.owned (omega arith) h3 fl bound odd
          (omega (arith, c3.left)) in
      let (own1, c1) =
        get_or_create-Created f c2.tree r2.1 i2 (i3 ∷ i4 ∷ []) c2.owned (omega arith) h2 fl bound
          odd (omega (arith, c3.left, c2.left)) in
      let root3 = c3.keeps root [] at in
      let root2 = c2.keeps root [] root3 in
      let pdpt2 = c2.keeps r3.1 (i4 ∷ []) c3.owned in
      record {
        owner = own1;
        chain = record {
          tree = c1.tree;
          at_root = c1.keeps root [] root2;
          at_pdpt = c1.keeps r3.1 (i4 ∷ []) pdpt2;
          at_pd = c1.keeps r2.1 (i3 ∷ i4 ∷ []) c2.owned;
          at_pt = c1.owned;
          link4 = Link-kept root i4 r3.1 [] c1 root2 h4 (
              Link-kept root i4 r3.1 [] c2 root3 h4
                (record { there = c3.present; leads = c3.points }));
          link3 =
              Link-kept r3.1 i3 r2.1 (i4 ∷ []) c1 pdpt2 h3
                (record { there = c2.present; leads = c2.points });
          link2 = record { there = c1.present; leads = c1.points };
        };
        some_pdpt = owned_ne r3.1 _ r3.0 c3.tree c3.owned;
        some_pd = owned_ne r2.1 _ r2.0 c2.tree c2.owned;
        some_pt = owned_ne r1.1 _ r1.0 c1.tree c1.owned;
        walks = λ js four hs.
            c1.walks root [] js root2 (omega arith) hs
            ∙ c2.walks root [] js root3 (omega arith) hs
            ∙ c3.walks root [] js at (omega arith) hs;
      }

  -- On a tree of tables, with three pages left for new ones, `vmm_map` of a whole page with flags below
  -- 4096 makes `vmm_get_phys` give that page for its address, and changes nothing for addresses of
  -- other pages.
  pub vmm_map-Mapped :
      (virt phys flags : ℕ)
      → phys % 4096 ≡ 0
      → flags < 4096
      → 3 ≤ f.available s.frames
      → Mapped root virt phys s (vmm_map alloc root virt phys flags s)
  unfolding vmm_map
  vmm_map-Mapped virt phys flags whole small left =
      let m =
        make (index_at 39 virt) (index_at 30 virt) (index_at 21 virt) (table_flags flags)
          (omega arith) (omega arith) (omega arith) (table_flags-bounds flags) left in
      subst (Mapped root virt phys s)
        (sym (if_false _ _ _ m.some_pdpt ∙ if_false _ _ _ m.some_pd ∙ if_false _ _ _ m.some_pt))
        (record {
          here =
              chain_here virt m.chain (bit_or phys flags)
              ∙ ap (λ a. frame_of (bit_or a flags)) {x = phys} {y = phys / 4096 * 4096}
                  (omega arith)
              ∙ ap frame_of (bit_or-page (phys / 4096) flags small)
              ∙ omega arith;
          elsewhere = λ other apart.
              chain_elsewhere virt m.chain (bit_or phys flags) other apart
              ∙ vmm_get_phys-walk root other _
              ∙ m.walks (path_of other) refl (path_of-Indices other)
              ∙ sym (vmm_get_phys-walk root other s);
        })
