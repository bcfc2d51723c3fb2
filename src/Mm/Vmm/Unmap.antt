-- ===== src/Mm/Vmm/Unmap.antt =====
-- `vmm_unmap` of kernel/src/mm/vmm.c: the address is mapped no more, and no other page changed.
use mathlib.Core.Path.{subst}
use ded_os.Base.{
  ℕ, ◌≡◌, refl, sym, ◌∙◌, ap, inl, inr, true, some, [], arith, not, if_true, if_false, Bool-cases,
}
use ded_os.Mm.Vmm.{Vmm, is_present, entry, target, index_at, vmm_get_phys, vmm_unmap}
use ded_os.Mm.Vmm.Frames.{Frames}
use ded_os.Mm.Vmm.Tree.{Owner, IsTree}
use ded_os.Mm.Vmm.Lookup.{vmm_get_phys-walk, walk-step, walk-missing}
use ded_os.Mm.Vmm.Map.{Mapped, Chain, chain_here, chain_elsewhere}

module _ {P : Type 0} {alloc : P → P × ℕ} (f : Frames P alloc) {own : Owner} {s : Vmm P}
    (tr : IsTree f own s) (root : ℕ) (at : own root ≡ some []) (virt : ℕ) where
  abbrev e4 : ℕ
  e4 = entry s root (index_at 39 virt)

  abbrev e3 : ℕ
  e3 = entry s (target s e4) (index_at 30 virt)

  abbrev e2 : ℕ
  e2 = entry s (target s e3) (index_at 21 virt)

  -- All three tables are there.
  chain :
      is_present e4 ≡ true
      → is_present e3 ≡ true
      → is_present e2 ≡ true
      → Chain f own s root
          (index_at 39 virt)
          (index_at 30 virt)
          (index_at 21 virt)
          (target s e4)
          (target s e3)
          (target s e2)
  chain h4 h3 h2 =
      let at3 = tr.child root [] (index_at 39 virt) at (omega arith) (omega arith) h4 in
      let at2 = tr.child (target s e4) _ (index_at 30 virt) at3 (omega arith) (omega arith) h3 in
      let at1 = tr.child (target s e3) _ (index_at 21 virt) at2 (omega arith) (omega arith) h2 in
      record {
        tree = tr;
        at_root = at;
        at_pdpt = at3;
        at_pd = at2;
        at_pt = at1;
        link4 = record { there = h4; leads = refl };
        link3 = record { there = h3; leads = refl };
        link2 = record { there = h2; leads = refl };
      }

  unchanged :
      vmm_get_phys root virt s ≡ 0
      → vmm_unmap root virt s ≡ s
      → Mapped root virt 0 s (vmm_unmap root virt s)
  unchanged gone same =
      subst (Mapped root virt 0 s) (sym same)
        (record { here = gone; elsewhere = λ other apart. refl })

  -- On a tree of tables, `vmm_unmap` makes `vmm_get_phys` give 0 for its address, and changes nothing
  -- for addresses of other pages.
  pub vmm_unmap-Mapped : Mapped root virt 0 s (vmm_unmap root virt s)
  unfolding vmm_unmap
  vmm_unmap-Mapped = elim (Bool-cases (is_present e4)) [
    | inr gone ↦
        unchanged (vmm_get_phys-walk root virt s ∙ walk-missing s root _ _ _ gone)
          (if_true _ _ _ (ap not gone))
    | inl h4 ↦ elim (Bool-cases (is_present e3)) [
      | inr gone ↦
          unchanged
            (vmm_get_phys-walk root virt s
              ∙ walk-step s root _ _ _ _ h4 refl
              ∙ walk-missing s (target s e4) _ _ _ gone)
            (if_false _ _ _ (ap not h4) ∙ if_true _ _ _ (ap not gone))
      | inl h3 ↦ elim (Bool-cases (is_present e2)) [
        | inr gone ↦
            unchanged
              (vmm_get_phys-walk root virt s
                ∙ walk-step s root _ _ _ _ h4 refl
                ∙ walk-step s (target s e4) _ _ _ _ h3 refl
                ∙ walk-missing s (target s e3) _ _ _ gone)
              (if_false _ _ _ (ap not h4)
                ∙ if_false _ _ _ (ap not h3)
                ∙ if_true _ _ _ (ap not gone))
        | inl h2 ↦
            let ch = chain h4 h3 h2 in
            subst (Mapped root virt 0 s)
              (sym (
                if_false _ _ _ (ap not h4)
                ∙ if_false _ _ _ (ap not h3)
                ∙ if_false _ _ _ (ap not h2)))
              (record { here = chain_here virt ch 0; elsewhere = chain_elsewhere virt ch 0 })
      ]
    ]
  ]
