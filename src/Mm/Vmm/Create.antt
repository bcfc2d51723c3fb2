-- ===== src/Mm/Vmm/Create.antt =====
-- `get_or_create` of kernel/src/mm/vmm.c: afterwards there is a table behind the entry, the tables
-- are a tree still, and no path that led somewhere leads elsewhere.
use mathlib.Core.Path.{subst}
use ded_os.Base.{
  ℕ, ◌+◌, ◌%◌, ◌≤◌, ◌<◌, ◌≡◌, refl, sym, ◌∙◌, ap, inl, inr, true, false, some, List, [], ◌∷◌, arith,
  ==-ne, if◌then◌else◌, if_true, if_false, if_both, Bool-cases, length,
}
use ded_os.Mm.Vmm.{Vmm, is_present, frame_of, entry, target, get_or_create}
use ded_os.Mm.Vmm.Frames.{Frames}
use ded_os.Mm.Vmm.Tree.{Owner, Indices, IsTree, walk}
use ded_os.Mm.Vmm.Linked.{Grown, linked, own', s', c, linked-Grown, true_ne_false, same_path}

-- What a call that gave the table `c` did, from `s` to `s'`.
pub record Created {P : Type 0} {alloc : P → P × ℕ} (f : Frames P alloc) (own : Owner) (s : Vmm P)
    (t i : ℕ) (p : List ℕ) (own' : Owner) (s' : Vmm P) (c : ℕ) : Type 0 where
  pub tree : IsTree f own' s'
  pub owned : own' c ≡ some (i ∷ p)
  pub keeps : (u : ℕ) (q : List ℕ) → own u ≡ some q → own' u ≡ some q
  pub present : is_present (entry s' t i) ≡ true
  pub points : target s' (entry s' t i) ≡ c
  pub entries :
      (u j : ℕ) (q : List ℕ)
      → own u ≡ some q
      → j < 512
      → is_present (entry s u j) ≡ true
      → entry s' u j ≡ entry s u j
  pub walks :
      (u : ℕ) (q js : List ℕ)
      → own u ≡ some q
      → length q + length js ≡ 4
      → Indices js
      → walk s' u js ≡ walk s u js
  pub same_offset : s'.hhdm_offset ≡ s.hhdm_offset
  pub left : f.available s.frames ≤ f.available s'.frames + 1

module _ {P : Type 0} {alloc : P → P × ℕ} (f : Frames P alloc) {own own' : Owner} {s s' : Vmm P}
    {t i c : ℕ} {p : List ℕ} (tr : IsTree f own s) (at : own t ≡ some p) (short : length p < 3)
    (missing : is_present (entry s t i) ≡ false) (gr : Grown f own s t i p own' s' c) where
  -- Below the new table there is nothing.
  walk_new : (j : ℕ) (js : List ℕ) → j < 512 → walk s' c (j ∷ js) ≡ 0
  unfolding walk
  walk_new j [] hj = ap frame_of (gr.empty j hj)
  walk_new j (k ∷ js) hj = if_false _ _ _ (ap is_present (gr.empty j hj))

  walks_new :
      (u : ℕ) (q js : List ℕ)
      → own u ≡ some q
      → length q + length js ≡ 4
      → Indices js
      → walk s' u js ≡ walk s u js
  unfolding walk
  walks_new u q [] e h hs = refl
  walks_new u q (j ∷ []) e h hs = elim (gr.cases u j q e hs.0) [
    | inl (eu, ej) ↦ absurd (omega (arith, ap length (same_path (sym at ∙ ap own (sym eu) ∙ e))))
    | inr same ↦ ap frame_of same
  ]
  walks_new u q (j ∷ k ∷ js) e h hs = elim (gr.cases u j q e hs.0) [
    | inl (eu, ej) ↦
        if_both (λ n. n ≡ 0) (is_present (entry s' u j))
          (ap (λ a. walk s' a (k ∷ js))
              (ap (λ a. target s' (entry s' a j)) eu
                ∙ ap (λ x. target s' (entry s' t x)) ej
                ∙ gr.points)
            ∙ walk_new k js hs.1.0)
          refl
        ∙ sym (
            if_false (is_present (entry s u j)) _ _ (
              ap (λ a. is_present (entry s a j)) eu
              ∙ ap (λ x. is_present (entry s t x)) ej
              ∙ missing))
    | inr same ↦
        ap (λ x. if is_present x then walk s' (target s' x) (k ∷ js) else 0) same
        ∙ elim (Bool-cases (is_present (entry s u j))) [
          | inl there ↦
              if_true _ _ _ there
              ∙ ap (λ a. walk s' a (k ∷ js)) (gr.same_target (entry s u j))
              ∙ walks_new (target s (entry s u j)) (j ∷ q) (k ∷ js)
                  (tr.child u q j e (omega arith) hs.0 there) (omega arith) hs.1
              ∙ sym (if_true _ _ _ there)
          | inr gone ↦ if_false _ _ _ gone ∙ sym (if_false _ _ _ gone)
        ]
  ]

  Grown-Created : Created f own s t i p own' s' c
  Grown-Created = record {
    tree = gr.tree;
    owned = gr.owned;
    keeps = gr.keeps;
    present = gr.present;
    points = gr.points;
    entries = λ u j q e hj there. elim (gr.cases u j q e hj) [
      | inl (eu, ej) ↦ absurd (
          true_ne_false (
            sym there
            ∙ ap (λ a. is_present (entry s a j)) eu
            ∙ ap (λ x. is_present (entry s t x)) ej
            ∙ missing))
      | inr same ↦ same
    ];
    walks = walks_new;
    same_offset = gr.same_offset;
    left = gr.left;
  }

module _ {P : Type 0} {alloc : P → P × ℕ} (f : Frames P alloc) {own : Owner} {s : Vmm P}
    (tr : IsTree f own s) (t i : ℕ) (p : List ℕ) (at : own t ≡ some p) (short : length p < 3)
    (hi : i < 512) where
  found-Created :
      is_present (entry s t i) ≡ true → Created f own s t i p own s (target s (entry s t i))
  found-Created there = record {
    tree = tr;
    owned = tr.child t p i at short hi there;
    keeps = λ u q e. e;
    present = there;
    points = refl;
    entries = λ u j q e h there. refl;
    walks = λ u q js e h hs. refl;
    same_offset = refl;
    left = omega arith;
  }

  -- On a tree of tables, with a page left, `get_or_create` at an entry of a table above the last level,
  -- with flags below 4096 that have the present bit, returns the table that the entry then leads to;
  -- the tables are a tree still, the entries that were present are as they were, and every path of
  -- four indices leads where it led before.
  pub get_or_create-Created :
      (flags : ℕ)
      → flags < 4096
      → flags % 2 ≡ 1
      → 0 < f.available s.frames
      → let r = get_or_create alloc t i flags s in
        (own' : Owner) × Created f own s t i p own' r.0 r.1
  unfolding get_or_create linked s' c
  get_or_create-Created flags hf odd left = elim (Bool-cases (is_present (entry s t i))) [
    | inl there ↦ (
      own,
      subst (λ (r : Vmm P × ℕ). Created f own s t i p own r.0 r.1) (sym (if_true _ _ _ there))
          (found-Created there),
    )
    | inr missing ↦
        let g = f.grants s.frames tr.ready left in
        (
          own' f tr t i p at short hi flags hf odd missing (alloc s.frames) g,
          subst
              (λ (r : Vmm P × ℕ).
                Created f own s t i p
                  (own' f tr t i p at short hi flags hf odd missing (alloc s.frames) g) r.0 r.1)
              (sym (if_false _ _ _ missing ∙ if_false _ _ _ (==-ne _ _ g.some_page)))
              (Grown-Created f tr at short missing
                (linked-Grown f tr t i p at short hi flags hf odd missing (alloc s.frames) g)),
        )
  ]
