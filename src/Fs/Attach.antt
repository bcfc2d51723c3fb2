-- ===== src/Fs/Attach.antt =====
-- A node that is put first among the children of a directory of kernel/src/fs/tmpfs.c keeps the tree.
use mathlib.Core.Path.{subst}
use ded_os.Base.{
  ℕ, ◌+◌, ◌≤◌, ◌≡◌, refl, ◌≢◌, sym, ◌∙◌, ap, ◌⊎◌, inl, inr, Bool, true, false, ◌&&◌, List, ◌==◌,
  ==_iff, Bool-cases, if◌then◌else◌,
}
use ded_os.Base.Memory.{update_ne}
use ded_os.Fs.{Files, TmpfsNode}
use ded_os.Fs.Dir.{same_name}
use ded_os.Fs.Inv.{Allocator, NodeSet, Kids, IsNode, IsTree, child}
use ded_os.Fs.Close.{clash}
use ded_os.Fs.Place.{
  child-agree, All-map, with_node, with_child, Placed, old_ne, keeps, kids_of_old, kids_of_parent,
  new_IsNode, old_IsNode,
}

-- What a creation leaves: the node `new`, of the given name, size and contents, below its parent.
pub record Created {H : Type 0} {kmalloc : ℕ → H → H × ℕ} {kfree : ℕ → H → H}
    (a : Allocator H kmalloc kfree) (is_node : NodeSet) (kids : Kids) (parent flags size : ℕ)
    (name bytes : List ℕ) (s s' : Files H) (new : ℕ) : Type 0 where
  pub fresh : is_node new ≡ false
  pub named : (s'.internal new).name ≡ name
  pub sized : (s'.internal new).size ≡ size
  pub filled : (s'.internal new).contents ≡ bytes
  pub flagged : (s'.internal new).flags ≡ flags
  pub children :
      (d : ℕ) (m : List ℕ)
      → is_node d ≡ true
      → child s'.internal (with_child kids parent new d) m
        ≡ (if (d == parent) && same_name name m then new else child s.internal (kids d) m)
  pub kinds : (d : ℕ) → is_node d ≡ true → (s'.internal d).flags ≡ (s.internal d).flags
  pub root : s'.root_internal ≡ s.root_internal
  pub spent : a.left s.heap ≤ a.left s'.heap + 2
  pub tree : IsTree a (with_node is_node new) (with_child kids parent new) s'

module _ {H : Type 0} {kmalloc : ℕ → H → H × ℕ} {kfree : ℕ → H → H} (a : Allocator H kmalloc kfree)
    {is_node : NodeSet} {kids : Kids} {s : Files H} (t : IsTree a is_node kids s) (parent : ℕ)
    (at_parent : is_node parent ≡ true) where
  module _ (new : ℕ) (unused : a.used s.heap new ≡ false) {name : List ℕ} {i : ℕ → TmpfsNode}
      {heap : H} (p : Placed a t parent at_parent new unused name i heap) where
    placed : Files H
    placed = record s { heap = heap; internal = i }

    placed-IsTree : IsTree a (with_node is_node new) (with_child kids parent new) placed
    unfolding placed
    placed-IsTree = record {
      nodes = λ d e. by d (Bool-cases (d == new)) e;
      root = update_ne is_node new true s.root_internal (old s.root_internal t.root) ∙ t.root;
      root_dir = keep (λ n. n.flags) refl s.root_internal t.root ∙ t.root_dir;
      mount = record {
        some_vnode = t.mount.some_vnode;
        in_use = p.still_used s.vfs_root t.mount.in_use;
        no_node =
            update_ne is_node new true s.vfs_root
              (λ e. clash (a.used s.heap new) (ap (a.used s.heap) (sym e) ∙ t.mount.in_use) unused)
            ∙ t.mount.no_node;
        device = t.mount.device;
        same_flags = t.mount.same_flags ∙ sym (keep (λ n. n.flags) refl s.root_internal t.root);
        same_size = t.mount.same_size ∙ sym (keep (λ n. n.size) refl s.root_internal t.root);
        can_read = t.mount.can_read;
        can_find = t.mount.can_find;
      };
    }
      where
        old : (d : ℕ) → is_node d ≡ true → d ≢ new
        old = old_ne a t parent at_parent new unused

        keep :
            {A : Type 0} (field : TmpfsNode → A)
            → field (record (s.internal parent) { children = new }) ≡ field (s.internal parent)
            → (d : ℕ) → is_node d ≡ true
            → field (i d) ≡ field (s.internal d)
        keep = keeps a t parent at_parent new unused p

        by :
            (d : ℕ)
            → ((d == new) ≡ true) ⊎ ((d == new) ≡ false)
            → with_node is_node new d ≡ true
            → IsNode a (with_node is_node new) (with_child kids parent new) placed d
        by d (inl same) e =
            subst (λ d. IsNode a (with_node is_node new) (with_child kids parent new) placed d)
              (sym ((==_iff d new).0 same)) (new_IsNode a t parent at_parent new unused p)
        by d (inr apart) e = old_IsNode a t parent at_parent new unused p d (
            sym (update_ne is_node new true d (λ q. clash (d == new) ((==_iff d new).1 q) apart))
            ∙ e)

    old_children :
        (d : ℕ) (m : List ℕ) → is_node d ≡ true → child i (kids d) m ≡ child s.internal (kids d) m
    old_children d m e = child-agree s.internal i (kids d) m (
        All-map {P = λ k. is_node k ≡ true} (kids d)
          (keeps a t parent at_parent new unused p (λ n. n.name) refl) (t.nodes d e).below)

    placed_children :
        (d : ℕ) (m : List ℕ)
        → is_node d ≡ true
        → child i (with_child kids parent new d) m
          ≡ (if (d == parent) && same_name name m then new else child s.internal (kids d) m)
    placed_children d m e = elim (Bool-cases (d == parent)) [
      | inl eq ↦
          let at = (==_iff d parent).0 eq in
          ap (λ d. child i (with_child kids parent new d) m) at
          ∙ ap (λ l. child i l m) (kids_of_parent a t parent at_parent new unused p)
          ∙ unfold child in
            ap (λ n. if same_name n m then new else child i (kids parent) m) p.node_name
            ∙ ap (λ r. if same_name name m then new else r) (old_children parent m at_parent)
            ∙ ap (λ d. if same_name name m then new else child s.internal (kids d) m) (sym at)
            ∙ ap (λ b. if b && same_name name m then new else child s.internal (kids d) m) (sym eq)
      | inr apart ↦
          let ne : d ≢ parent = λ q. clash (d == parent) ((==_iff d parent).1 q) apart in
          ap (λ l. child i l m) (kids_of_old a t parent at_parent new unused p d e ne)
          ∙ old_children d m e
          ∙ ap (λ b. if b && same_name name m then new else child s.internal (kids d) m) (sym apart)
    ]

    pub placed-Created :
        (flags size : ℕ) (bytes : List ℕ)
        → (i new).size ≡ size
        → (i new).contents ≡ bytes
        → (i new).flags ≡ flags
        → a.left s.heap ≤ a.left heap + 2
        → Created a is_node kids parent flags size name bytes s
            (record s { heap = heap; internal = i })
            new
    unfolding placed
    placed-Created flags size bytes sized filled flagged spent = record {
      fresh = not_node (is_node new) refl;
      named = p.node_name;
      sized = sized;
      filled = filled;
      flagged = flagged;
      children = placed_children;
      kinds = λ d e. keeps a t parent at_parent new unused p (λ n. n.flags) refl d e;
      root = refl;
      spent = spent;
      tree = placed-IsTree;
    }
      where
        not_node : (b : Bool) → is_node new ≡ b → is_node new ≡ false
        not_node true e = clash (a.used s.heap new) (t.nodes new e).in_use unused
        not_node false e = e
