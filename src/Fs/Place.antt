-- ===== src/Fs/Place.antt =====
-- A node that is put in front of the children of another, as kernel/src/fs/tmpfs.c does.
use mathlib.Core.Path.{subst}
use ded_os.Base.{
  ℕ, ◌≡◌, refl, ◌≢◌, sym, ◌∙◌, ap, ◌⊎◌, inl, inr, true, false, List, [], ◌∷◌, All, ◌==◌, ==_iff,
  Bool-cases, if◌then◌else◌,
}
use ded_os.Base.Memory.{update, update_self, update_ne}
use ded_os.Fs.{Files, TmpfsNode, vfs_file, vfs_directory}
use ded_os.Fs.Dir.{same_name}
use ded_os.Fs.Inv.{Allocator, Chain, NodeSet, Kids, IsNode, IsTree, child}
use ded_os.Fs.Close.{clash}

pub Chain-agree :
    (i i' : ℕ → TmpfsNode) (p : ℕ) (ks : List ℕ)
    → All (λ k. (i' k).next ≡ (i k).next) ks
    → Chain i p ks
    → Chain i' p ks
Chain-agree i i' p [] same c = c
Chain-agree i i' p (k ∷ ks) (e, same) (at, ne, c) =
    (at, ne, rw e (Chain-agree i i' (i k).next ks same c))

pub child-agree :
    (i i' : ℕ → TmpfsNode) (ks name : List ℕ)
    → All (λ k. (i' k).name ≡ (i k).name) ks
    → child i' ks name ≡ child i ks name
unfolding child
child-agree i i' [] name same = refl
child-agree i i' (k ∷ ks) name (e, same) =
    rw e (ap (λ r. if same_name (i k).name name then k else r) (child-agree i i' ks name same))

pub All-map : {P Q : ℕ → Type 0} (xs : List ℕ) (f : (x : ℕ) → P x → Q x) → All P xs → All Q xs
All-map [] f all = tt
All-map (x ∷ xs) f (p, all) = (f x p, All-map xs f all)

-- The sets of nodes and children once `new` is the first child of `parent`.
abbrev pub with_node : NodeSet → ℕ → NodeSet
with_node is_node new = update is_node new true

abbrev pub with_child : Kids → ℕ → ℕ → Kids
with_child kids parent new = update (update kids parent (new ∷ kids parent)) new []

module _ {H : Type 0} {kmalloc : ℕ → H → H × ℕ} {kfree : ℕ → H → H} (a : Allocator H kmalloc kfree)
    {is_node : NodeSet} {kids : Kids} {s : Files H} (t : IsTree a is_node kids s) (parent : ℕ)
    (at_parent : is_node parent ≡ true) (new : ℕ) (unused : a.used s.heap new ≡ false) where
  pub old_ne : (d : ℕ) → is_node d ≡ true → d ≢ new
  old_ne d e same =
      clash (a.used s.heap new) (ap (a.used s.heap) (sym same) ∙ (t.nodes d e).in_use) unused

  -- The state after a creation, as far as it matters.
  pub record Placed (name : List ℕ) (i : ℕ → TmpfsNode) (heap : H) : Type 0 where
    pub node_kind : ((i new).flags ≡ vfs_file) ⊎ ((i new).flags ≡ vfs_directory)
    pub node_name : (i new).name ≡ name
    pub node_next : (i new).next ≡ (s.internal parent).children
    pub node_bare : (i new).children ≡ 0
    pub above : i parent ≡ record (s.internal parent) { children = new }
    pub rest : (j : ℕ) → j ≢ new → j ≢ parent → i j ≡ s.internal j
    pub some_new : new ≢ 0
    pub now_used : a.used heap new ≡ true
    pub still_used : (j : ℕ) → a.used s.heap j ≡ true → a.used heap j ≡ true

  module _ {name : List ℕ} {i : ℕ → TmpfsNode} {heap : H} (p : Placed name i heap) where
    -- An old node keeps all but its children.
    pub keeps :
        {A : Type 0} (field : TmpfsNode → A)
        → field (record (s.internal parent) { children = new }) ≡ field (s.internal parent)
        → (d : ℕ) → is_node d ≡ true
        → field (i d) ≡ field (s.internal d)
    keeps field same d e = elim (Bool-cases (d == parent)) [
      | inl eq ↦
          let e' = (==_iff d parent).0 eq in
          ap (λ d. field (i d)) e'
          ∙ ap field p.above
          ∙ same
          ∙ ap (λ d. field (s.internal d)) (sym e')
      | inr ne ↦
          ap field (p.rest d (old_ne d e) (λ e. clash (d == parent) ((==_iff d parent).1 e) ne))
    ]

    new_children :
        (d : ℕ) → is_node d ≡ true → d ≢ parent → (i d).children ≡ (s.internal d).children
    new_children d e ne = ap (λ (n : TmpfsNode). n.children) (p.rest d (old_ne d e) ne)

    pub kids_of_old :
        (d : ℕ) → is_node d ≡ true → d ≢ parent → with_child kids parent new d ≡ kids d
    kids_of_old d e ne =
        update_ne _ new [] d (old_ne d e) ∙ update_ne kids parent (new ∷ kids parent) d ne

    pub kids_of_parent : with_child kids parent new parent ≡ new ∷ kids parent
    kids_of_parent =
        update_ne _ new [] parent (old_ne parent at_parent)
        ∙ update_self kids parent (new ∷ kids parent)

    chain_kept : (d q : ℕ) → is_node d ≡ true → Chain s.internal q (kids d) → Chain i q (kids d)
    chain_kept d q e c =
        Chain-agree s.internal i q (kids d)
          (All-map {P = λ k. is_node k ≡ true} (kids d) (keeps (λ n. n.next) refl)
            (t.nodes d e).below)
          c

    below_kept :
        (ks : List ℕ)
        → All (λ k. is_node k ≡ true) ks
        → All (λ k. with_node is_node new k ≡ true) ks
    below_kept ks all = All-map ks (λ k e. update_ne is_node new true k (old_ne k e) ∙ e) all

    pub new_IsNode :
        IsNode a
          (with_node is_node new)
          (with_child kids parent new)
          (record s { heap = heap; internal = i })
          new
    new_IsNode = record {
      some_node = p.some_new;
      in_use = p.now_used;
      kind = p.node_kind;
      linked = rw (update_self (update kids parent (new ∷ kids parent)) new []) p.node_bare;
      below = rw (update_self (update kids parent (new ∷ kids parent)) new []) tt;
    }

    pub old_IsNode :
        (d : ℕ)
        → is_node d ≡ true
        → IsNode a
            (with_node is_node new)
            (with_child kids parent new)
            (record s { heap = heap; internal = i })
            d
    old_IsNode d e = elim (Bool-cases (d == parent)) [
      | inl eq ↦
          subst
            (λ d.
              IsNode a (with_node is_node new) (with_child kids parent new)
                (record s { heap = heap; internal = i }) d)
            (sym ((==_iff d parent).0 eq))
            (record {
              some_node = (t.nodes parent at_parent).some_node;
              in_use = p.still_used parent (t.nodes parent at_parent).in_use;
              kind = rw p.above (t.nodes parent at_parent).kind;
              linked = subst (Chain i (i parent).children) (sym kids_of_parent) (
                ap (λ (n : TmpfsNode). n.children) p.above,
                p.some_new,
                rw p.node_next (
                    chain_kept parent (s.internal parent).children at_parent
                      (t.nodes parent at_parent).linked),
              );
              below = subst (All (λ k. with_node is_node new k ≡ true)) (sym kids_of_parent) (
                update_self is_node new true,
                below_kept (kids parent) (t.nodes parent at_parent).below,
              );
            })
      | inr apart ↦
          let ne : d ≢ parent = λ q. clash (d == parent) ((==_iff d parent).1 q) apart in
          let n = t.nodes d e in
          record {
            some_node = n.some_node;
            in_use = p.still_used d n.in_use;
            kind = rw (p.rest d (old_ne d e) ne) n.kind;
            linked =
                subst (Chain i (i d).children) (sym (kids_of_old d e ne))
                  (rw (new_children d e ne) (chain_kept d (s.internal d).children e n.linked));
            below =
                subst (All (λ k. with_node is_node new k ≡ true)) (sym (kids_of_old d e ne))
                  (below_kept (kids d) n.below);
          }
    ]
