-- ===== src/Mm/Vmm/Lookup.antt =====
-- A write of an entry in a table of the last level, kernel/src/mm/vmm.c: the path to it leads to the
-- new page, and every other path where it led before.
use ded_os.Base.{
  ℕ, ◌+◌, ◌*◌, ◌<◌, ◌≡◌, refl, sym, ◌∙◌, ap, ◌⊎◌, inl, inr, Bool, true, false, some, List, [], ◌∷◌,
  arith, not, ◌==◌, ==_iff, if◌then◌else◌, if_true, if_false, Bool-cases, length,
}
use ded_os.Base.Memory.{update, update_self}
use ded_os.Mm.Vmm.{Vmm, is_present, frame_of, entry, set_entry, target, index_at, vmm_get_phys}
use ded_os.Mm.Vmm.Frames.{Frames}
use ded_os.Mm.Vmm.Tree.{Owner, Indices, IsTree, walk, cells_apart}
use ded_os.Mm.Vmm.Linked.{same_path}

-- The indices of an address, the first level first.
abbrev pub path_of : ℕ → List ℕ
path_of virt = index_at 39 virt ∷ index_at 30 virt ∷ index_at 21 virt ∷ index_at 12 virt ∷ []

pub path_of-Indices : (virt : ℕ) → Indices (path_of virt)
path_of-Indices virt = (omega arith, (omega arith, (omega arith, (omega arith, tt))))

-- `vmm_get_phys` follows the path.
pub vmm_get_phys-walk :
    {P : Type 0} (pml4 virt : ℕ) (s : Vmm P) → vmm_get_phys pml4 virt s ≡ walk s pml4 (path_of virt)
unfolding vmm_get_phys walk
vmm_get_phys-walk pml4 virt s =
    let e4 = entry s pml4 (index_at 39 virt) in
    let e3 = entry s (target s e4) (index_at 30 virt) in
    let e2 = entry s (target s e3) (index_at 21 virt) in
    turned (is_present e4) (is_present e3) (is_present e2)
      (frame_of (entry s (target s e2) (index_at 12 virt)))
  where
    turned :
        (b4 b3 b2 : Bool) (x : ℕ)
        → (if not b4 then 0 else if not b3 then 0 else if not b2 then 0 else x)
          ≡ (if b4 then if b3 then if b2 then x else 0 else 0 else 0)
    turned false b3 b2 x = refl
    turned true false b2 x = refl
    turned true true false x = refl
    turned true true true x = refl

pub walk-step :
    {P : Type 0} (s : Vmm P) (t i j c : ℕ) (js : List ℕ)
    → is_present (entry s t i) ≡ true
    → target s (entry s t i) ≡ c
    → walk s t (i ∷ j ∷ js) ≡ walk s c (j ∷ js)
unfolding walk
walk-step s t i j c js there e = if_true _ _ _ there ∙ ap (λ a. walk s a (j ∷ js)) e

pub walk-missing :
    {P : Type 0} (s : Vmm P) (t i j : ℕ) (js : List ℕ)
    → is_present (entry s t i) ≡ false
    → walk s t (i ∷ j ∷ js) ≡ 0
unfolding walk
walk-missing s t i j js gone = if_false _ _ _ gone

-- The path `q` with the indices `js` after it.
abbrev pub onto : List ℕ → List ℕ → List ℕ
onto [] q = q
onto (j ∷ js) q = onto js (j ∷ q)

module _ {P : Type 0} {alloc : P → P × ℕ} (f : Frames P alloc) {own : Owner} {s : Vmm P}
    (tr : IsTree f own s) (t i e : ℕ) (p : List ℕ) (at : own t ≡ some p) (leaf : length p ≡ 3)
    (hi : i < 512) where
  written : Vmm P
  written = set_entry t i e s

  entry-written-cases :
      (u j : ℕ) (q : List ℕ)
      → own u ≡ some q
      → j < 512
      → ((u ≡ t) × (j ≡ i)) ⊎ (entry written u j ≡ entry s u j)
  unfolding written
  entry-written-cases u j q eu hj = elim (Bool-cases (u + 8 * j == t + 8 * i)) [
    | inl same ↦ inl (
        cells_apart u j t i (tr.whole u q eu) (tr.whole t p at) hj hi
          ((==_iff (u + 8 * j) (t + 8 * i)).0 same))
    | inr other ↦ inr (unfold update in if_false (u + 8 * j == t + 8 * i) _ _ other)
  ]

  -- Tables above the last level keep their entries.
  pub entry_above :
      (u j : ℕ) (q : List ℕ)
      → own u ≡ some q
      → length q < 3
      → j < 512
      → entry (set_entry t i e s) u j ≡ entry s u j
  unfolding written
  entry_above u j q eu hq hj = elim (entry-written-cases u j q eu hj) [
    | inl (same, _) ↦ absurd (omega (arith, ap length (same_path (sym eu ∙ ap own same ∙ at))))
    | inr kept ↦ kept
  ]

  pub walk_written :
      (u : ℕ) (q js : List ℕ)
      → own u ≡ some q
      → length q + length js ≡ 4
      → Indices js
      → (onto js q ≡ i ∷ p) ⊎ (walk (set_entry t i e s) u js ≡ walk s u js)
  unfolding walk written
  walk_written u q [] eu h hs = inr refl
  walk_written u q (j ∷ []) eu h hs = elim (entry-written-cases u j q eu hs.0) [
    | inl (same, ej) ↦
        inl (ap (λ k. k ∷ q) ej ∙ ap (λ x. i ∷ x) (same_path (sym eu ∙ ap own same ∙ at)))
    | inr kept ↦ inr (ap frame_of kept)
  ]
  walk_written u q (j ∷ k ∷ js) eu h hs = elim (Bool-cases (is_present (entry s u j))) [
    | inl there ↦
        elim (walk_written (target s (entry s u j)) (j ∷ q) (k ∷ js)
          (tr.child u q j eu (omega arith) hs.0 there) (omega arith) hs.1) [
            | inl reached ↦ inl reached
            | inr kept ↦ inr (
                ap (λ x. if is_present x then walk written (target s x) (k ∷ js) else 0)
                  (entry_above u j q eu (omega arith) hs.0)
                ∙ if_true _ _ _ there
                ∙ kept
                ∙ sym (if_true _ _ _ there))
          ]
    | inr gone ↦ inr (
        ap (λ x. if is_present x then walk written (target s x) (k ∷ js) else 0)
          (entry_above u j q eu (omega arith) hs.0)
        ∙ if_false _ _ _ gone
        ∙ sym (if_false _ _ _ gone))
  ]

  pub walk_at_leaf : walk (set_entry t i e s) t (i ∷ []) ≡ frame_of e
  unfolding walk
  walk_at_leaf = ap frame_of (update_self s.mem (t + 8 * i) e)
