-- ===== src/Mm/Vmm/Linked.antt =====
-- The table that `get_or_create` of kernel/src/mm/vmm.c makes: the state in which it is linked.
use Prim.Native.Nat.{bit_or}
use ded_os.Base.{
  ℕ, ◌+◌, ◌-◌, ◌*◌, ◌/◌, ◌%◌, ◌≤◌, ◌<◌, ◌≡◌, refl, ◌≢◌, sym, ◌∙◌, ap, ◌⊎◌, inl, inr, true, false,
  Option, none, some, List, ◌∷◌, arith, ◌==◌, ==_iff, ==_self, if_true, if_false, if_both,
  Bool-cases, length,
}
use ded_os.Base.Memory.{update, update_self, update_ne}
use ded_os.Base.OrBits.{bit_or-page}
use ded_os.Base.Word.{add64}
use ded_os.Mm.Vmm.{Vmm, is_present, frame_of, phys_to_virt, entry, set_entry, target, clear_entries}
use ded_os.Mm.Vmm.Frames.{Frames, Granted}
use ded_os.Mm.Vmm.Tree.{Owner, IsTree, clear_entries-in, clear_entries-out, cells_apart}

pub true_ne_false : true ≡ false → ⊥
true_ne_false h = cc

pub same_path : {x y : List ℕ} → some x ≡ some y → x ≡ y
same_path {x} {y} e = ap (λ (o : Option (List ℕ)). elim o [ none ↦ x | some z ↦ z ]) e

-- A table made of the page that `r` grants, linked at entry `i` of `t`.
unfoldable pub linked : {P : Type 0} → ℕ → ℕ → ℕ → P × ℕ → Vmm P → Vmm P
linked t i flags r s =
    let s' = record s { frames = r.0 } in
    set_entry t i (bit_or r.1 flags)
      (record s' { mem = clear_entries 512 0 (phys_to_virt s' r.1) s'.mem })

-- From `s` to `s'` the table `c` was made behind entry `i` of `t`, and nothing else changed.
pub record Grown {P : Type 0} {alloc : P → P × ℕ} (f : Frames P alloc) (own : Owner) (s : Vmm P)
    (t i : ℕ) (p : List ℕ) (own' : Owner) (s' : Vmm P) (c : ℕ) : Type 0 where
  pub tree : IsTree f own' s'
  pub owned : own' c ≡ some (i ∷ p)
  pub keeps : (u : ℕ) (q : List ℕ) → own u ≡ some q → own' u ≡ some q
  pub present : is_present (entry s' t i) ≡ true
  pub points : target s' (entry s' t i) ≡ c
  pub cases :
      (u j : ℕ) (q : List ℕ)
      → own u ≡ some q
      → j < 512
      → ((u ≡ t) × (j ≡ i)) ⊎ (entry s' u j ≡ entry s u j)
  pub empty : (j : ℕ) → j < 512 → entry s' c j ≡ 0
  pub same_target : (e : ℕ) → target s' e ≡ target s e
  pub same_offset : s'.hhdm_offset ≡ s.hhdm_offset
  pub left : f.available s.frames ≤ f.available s'.frames + 1

module _ {P : Type 0} {alloc : P → P × ℕ} (f : Frames P alloc) {own : Owner} {s : Vmm P}
    (tr : IsTree f own s) (t i : ℕ) (p : List ℕ) (at : own t ≡ some p) (short : length p < 3)
    (hi : i < 512) where
  module _ (flags : ℕ) (hf : flags < 4096) (odd : flags % 2 ≡ 1)
      (missing : is_present (entry s t i) ≡ false) (r : P × ℕ)
      (g : Granted P f.held f.available f.limit f.IsReady s.frames r) where
    unfoldable pub c : ℕ
    c = phys_to_virt s r.1

    c_eq : c ≡ r.1 + s.hhdm_offset
    unfolding c
    c_eq = omega (arith, g.bounded, tr.offset_room)

    unfoldable pub own' : Owner
    own' = update own c (some (i ∷ p))

    unfoldable pub s' : Vmm P
    s' = linked t i flags r s

    new_entry : bit_or r.1 flags ≡ r.1 + flags
    new_entry =
        ap (λ a. bit_or a flags) {x = r.1} {y = r.1 / 4096 * 4096} (omega (arith, g.whole))
        ∙ bit_or-page (r.1 / 4096) flags hf
        ∙ omega (arith, g.whole)

    c_whole : c % 4096 ≡ 0
    c_whole = omega (arith, c_eq, g.whole, tr.offset_whole)

    -- The new table is none of the old ones.
    fresh : (u : ℕ) (q : List ℕ) → own u ≡ some q → u ≢ c
    fresh u q e same = true_ne_false (
        sym (tr.held u q e)
        ∙ ap (f.held s.frames) {x = (u - s.hhdm_offset) / 4096} {y = r.1 / 4096}
            (omega (arith, c_eq))
        ∙ g.was_free)

    entry_linked : entry s' t i ≡ r.1 + flags
    unfolding s' linked
    entry_linked = update_self _ (t + 8 * i) (bit_or r.1 flags) ∙ new_entry

    entry_other :
        (u j : ℕ) (q : List ℕ)
        → own u ≡ some q
        → j < 512
        → ((u ≡ t) × (j ≡ i) → ⊥)
        → entry s' u j ≡ entry s u j
    unfolding s' linked c
    entry_other u j q e hj other =
        update_ne _ (t + 8 * i) _ (u + 8 * j)
          (λ same. other (cells_apart u j t i (tr.whole u q e) (tr.whole t p at) hj hi same))
        ∙ clear_entries-out 512 0 c (u + 8 * j) s.mem (λ k l same.
          fresh u q e (cells_apart u j c k (tr.whole u q e) c_whole hj l (same ∙ omega arith)).0)

    entry_new : (j : ℕ) → j < 512 → entry s' c j ≡ 0
    unfolding s' linked c
    entry_new j hj =
        update_ne _ (t + 8 * i) _ (c + 8 * j)
          (λ same. fresh t p at (sym (cells_apart c j t i c_whole (tr.whole t p at) hj hi same).0))
        ∙ clear_entries-in 512 c j s.mem hj

    owned-cases :
        (u : ℕ) (q : List ℕ) → own' u ≡ some q → ((u ≡ c) × ((i ∷ p) ≡ q)) ⊎ (own u ≡ some q)
    unfolding own' update
    owned-cases u q e = elim (Bool-cases (u == c)) [
      | inl h ↦ inl ((==_iff u c).0 h, same_path (sym (if_true (u == c) _ _ h) ∙ e))
      | inr h ↦ inr (sym (if_false (u == c) (some (i ∷ p)) (own u) h) ∙ e)
    ]

    keeps_own : (u : ℕ) (q : List ℕ) → own u ≡ some q → own' u ≡ some q
    unfolding own'
    keeps_own u q e = update_ne own c _ u (fresh u q e) ∙ e

    points_new : target s' (entry s' t i) ≡ c
    unfolding s' linked c
    points_new =
        ap (λ e. add64 (frame_of e) s.hhdm_offset) entry_linked
        ∙ ap (λ a. add64 a s.hhdm_offset) {x = frame_of (r.1 + flags)} {y = r.1}
            (omega (arith, g.whole))

    present_new : is_present (entry s' t i) ≡ true
    present_new = ap is_present entry_linked ∙ ground (arith, g.whole, odd)

    empty_new : (j : ℕ) → j < 512 → is_present (entry s' c j) ≡ false
    empty_new j hj = ap is_present (entry_new j hj)

    held_new :
        (u : ℕ) (q : List ℕ) → own' u ≡ some q → f.held r.0 ((u - s.hhdm_offset) / 4096) ≡ true
    held_new u q e = g.now_held _ ∙ elim (owned-cases u q e) [
      | inl (same, _) ↦ if_true _ _ _ (
          ap (λ a. a == r.1 / 4096) {x = (u - s.hhdm_offset) / 4096} {y = r.1 / 4096}
            (omega (arith, same, c_eq))
          ∙ ==_self (r.1 / 4096))
      | inr old ↦ if_both (λ b. b ≡ true) _ refl (tr.held u q old)
    ]

    entry-cases :
        (u j : ℕ) (q : List ℕ)
        → own u ≡ some q
        → j < 512
        → ((u ≡ t) × (j ≡ i)) ⊎ (entry s' u j ≡ entry s u j)
    entry-cases u j q e hj = elim (Bool-cases (u == t)) [
      | inr other ↦
          inr (entry_other u j q e hj (λ h. true_ne_false (sym ((==_iff u t).1 h.0) ∙ other)))
      | inl same ↦ elim (Bool-cases (j == i)) [
        | inr other ↦
            inr (entry_other u j q e hj (λ h. true_ne_false (sym ((==_iff j i).1 h.1) ∙ other)))
        | inl same_index ↦ inl ((==_iff u t).0 same, (==_iff j i).0 same_index)
      ]
    ]

    own_new : own' c ≡ some (i ∷ p)
    unfolding own'
    own_new = update_self own c (some (i ∷ p))

    target_same : (e : ℕ) → target s' e ≡ target s e
    unfolding s' linked
    target_same e = refl

    path_at : (u : ℕ) (q : List ℕ) → own u ≡ some q → u ≡ t → p ≡ q
    path_at u q e same = same_path (sym at ∙ ap own (sym same) ∙ e)

    child_new :
        (u : ℕ) (q : List ℕ) (j : ℕ)
        → own' u ≡ some q
        → length q < 3
        → j < 512
        → is_present (entry s' u j) ≡ true
        → own' (target s' (entry s' u j)) ≡ some (j ∷ q)
    child_new u q j e hq hj there = elim (owned-cases u q e) [
      | inl (same, _) ↦
          absurd
            (true_ne_false (sym there ∙ ap (λ a. is_present (entry s' a j)) same ∙ empty_new j hj))
      | inr old ↦ elim (entry-cases u j q old hj) [
        | inl (eu, ej) ↦
            ap own' (
              ap (λ a. target s' (entry s' a j)) eu
              ∙ ap (λ k. target s' (entry s' t k)) ej
              ∙ points_new)
            ∙ own_new
            ∙ ap (λ k. some (k ∷ p)) (sym ej)
            ∙ ap (λ x. some (j ∷ x)) (path_at u q old eu)
        | inr same ↦
            ap own' (target_same (entry s' u j) ∙ ap (target s) same)
            ∙ keeps_own (target s (entry s u j)) (j ∷ q)
                (tr.child u q j old hq hj (sym (ap is_present same) ∙ there))
      ]
    ]

    IsTree-new : IsTree f own' s'
    unfolding s' linked
    IsTree-new = record {
      ready = g.still_ready;
      offset_whole = tr.offset_whole;
      offset_some = tr.offset_some;
      offset_room = tr.offset_room;
      whole = λ u q e. elim (owned-cases u q e) [
        | inl (same, _) ↦ ap (λ a. a % 4096) same ∙ c_whole
        | inr old ↦ tr.whole u q old
      ];
      mapped = λ u q e. elim (owned-cases u q e) [
        | inl (same, _) ↦ omega (arith, same, c_eq)
        | inr old ↦ tr.mapped u q old
      ];
      held = held_new;
      child = child_new;
    }

    pub linked-Grown : Grown f own s t i p own' s' c
    linked-Grown = record {
      tree = IsTree-new;
      owned = own_new;
      keeps = keeps_own;
      present = present_new;
      points = points_new;
      cases = entry-cases;
      empty = entry_new;
      same_target = target_same;
      same_offset = unfold s' in unfold linked in refl;
      left = unfold s' in unfold linked in omega (arith, g.fewer);
    }
