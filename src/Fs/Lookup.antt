-- ===== src/Fs/Lookup.antt =====
-- The lookup of a name in a directory, kernel/src/fs/tmpfs.c, and the node that stands for what it finds.
use mathlib.Core.Path.{subst}
use ded_os.Base.{
  ℕ, zero, suc, ◌+◌, ◌≤◌, ◌<◌, ◌≡◌, refl, ◌≢◌, sym, ◌∙◌, ap, inl, inr, Bool, true, false, some,
  List, [], ◌∷◌, arith, All, ◌==◌, ==_iff, ==-ne, ==_self, Bool-cases, if◌then◌else◌, if_true,
  if_false, length,
}
use ded_os.Base.Memory.{update, update_self, update_ne}
use ded_os.Fs.{Files, TmpfsNode, VfsNode, tmpfs, vfs_directory}
use ded_os.Fs.Dir.{same_name, tmpfs_create_vnode, find_child, tmpfs_finddir, vfs_node_size}
use ded_os.Fs.Vfs.{finddir}
use ded_os.Fs.Inv.{Allocator, Chain, NodeSet, Kids, Mirrors, IsTree, child}

clash : {A : Type 0} (b : Bool) → b ≡ true → b ≡ false → A
clash b e h = cc

pub find_child-child :
    {H : Type 0} (kmalloc : ℕ → H → H × ℕ) (fuel p : ℕ) (ks name : List ℕ) (s : Files H)
    → Chain s.internal p ks
    → length ks < fuel
    → find_child kmalloc fuel p name s
      ≡ some (tmpfs_create_vnode kmalloc (child s.internal ks name) s)
unfolding find_child child
find_child-child kmalloc zero p ks name s c h = absurd (omega arith)
find_child-child kmalloc (suc fuel) p [] name s e h =
    if_true _ _ _ ((==_iff p 0).1 e) ∙ unfold tmpfs_create_vnode in refl
find_child-child kmalloc (suc fuel) p (k ∷ ks) name s (e, ne, c) h =
    ap (λ p. find_child kmalloc (suc fuel) p name s) e
    ∙ if_false _ _ _ (==-ne k 0 ne)
    ∙ elim (Bool-cases (same_name (s.internal k).name name)) [
      | inl same ↦
          if_true _ _ _ same
          ∙ ap (λ k. some (tmpfs_create_vnode kmalloc k s)) (sym (if_true _ _ _ same))
      | inr other ↦
          if_false _ _ _ other
          ∙ find_child-child kmalloc fuel (s.internal k).next ks name s c (omega arith)
          ∙ ap (λ k. some (tmpfs_create_vnode kmalloc k s)) (sym (if_false _ _ _ other))
    ]

pub child-node :
    (is_node : NodeSet) (internal : ℕ → TmpfsNode) (ks name : List ℕ)
    → All (λ k. is_node k ≡ true) ks
    → child internal ks name ≢ 0
    → is_node (child internal ks name) ≡ true
unfolding child
child-node is_node internal [] name all ne = absurd (ne refl)
child-node is_node internal (k ∷ ks) name (e, all) ne =
    elim (Bool-cases (same_name (internal k).name name)) [
      | inl same ↦ ap is_node (if_true _ _ _ same) ∙ e
      | inr other ↦
          ap is_node (if_false _ _ _ other)
          ∙ child-node is_node internal ks name all (λ z. ne (if_false _ _ _ other ∙ z))
    ]

module _ {H : Type 0} {kmalloc : ℕ → H → H × ℕ} {kfree : ℕ → H → H} (a : Allocator H kmalloc kfree)
    {is_node : NodeSet} {kids : Kids} {s : Files H} (t : IsTree a is_node kids s) where
  -- `finddir` on a directory gives a node for the child of that name.
  pub finddir-child :
      (fuel v d : ℕ) (name : List ℕ)
      → Mirrors a is_node s v d
      → is_node d ≡ true
      → (s.internal d).flags ≡ vfs_directory
      → length (kids d) < fuel
      → finddir kmalloc kfree fuel v name s
        ≡ some (tmpfs_create_vnode kmalloc (child s.internal (kids d) name) s)
  unfolding finddir tmpfs_finddir
  finddir-child fuel v d name m node dir room =
      rw (m.can_find, finddir)
        (rw m.device (
          if_true _ _ _ ((==_iff (s.internal d).flags vfs_directory).1 dir)
          ∙ find_child-child kmalloc fuel (s.internal d).children (kids d) name s
              (t.nodes d node).linked room))

  -- The new node stands for that child; no other node and no child changes.
  pub record Opened (s' : Files H) (v d : ℕ) : Type 0 where
    pub mirrors : Mirrors a is_node s' v d
    pub internal : s'.internal ≡ s.internal
    pub root : s'.root_internal ≡ s.root_internal
    pub vroot : s'.vfs_root ≡ s.vfs_root
    pub others : (u : ℕ) → a.used s.heap u ≡ true → s'.nodes u ≡ s.nodes u
    pub was_free : a.used s.heap v ≡ false
    pub fewer : a.left s.heap ≤ a.left s'.heap + 1
    pub now_used : (j : ℕ) → a.used s'.heap j ≡ (if j == v then true else a.used s.heap j)

  pub tmpfs_create_vnode-Opened :
      (d : ℕ)
      → is_node d ≡ true
      → 0 < a.left s.heap
      → Opened (tmpfs_create_vnode kmalloc d s).0 (tmpfs_create_vnode kmalloc d s).1 d
  unfolding tmpfs_create_vnode
  tmpfs_create_vnode-Opened d node more =
      let new : VfsNode = record {
        name = (s.internal d).name;
        flags = (s.internal d).flags;
        size = (s.internal d).size;
        device = d;
        read = some tmpfs;
        finddir = some tmpfs;
      } in
      let v = (kmalloc vfs_node_size s.heap).1 in
      let s1 : Files H = record s {
        heap = (kmalloc vfs_node_size s.heap).0;
        nodes = update s.nodes v new;
      } in
      let here = update_self s.nodes v new in
      subst (λ (r : Files H × ℕ). Opened r.0 r.1 d)
        (sym (if_false _ (s, 0) (s1, v) (==-ne d 0 (t.nodes d node).some_node)))
        (record {
          mirrors = record {
            some_vnode = a.nonnull vfs_node_size s.heap (omega arith) a.node_room more;
            in_use =
                a.taken vfs_node_size s.heap v (omega arith) a.node_room more
                ∙ if_true _ _ _ (==_self v);
            no_node = not_node (is_node v) refl;
            device = ap (λ (n : VfsNode). n.device) here;
            same_flags = ap (λ (n : VfsNode). n.flags) here;
            same_size = ap (λ (n : VfsNode). n.size) here;
            can_read = ap (λ (n : VfsNode). n.read) here;
            can_find = ap (λ (n : VfsNode). n.finddir) here;
          };
          internal = refl;
          root = refl;
          vroot = refl;
          others = λ u e. update_ne s.nodes v new u (λ same.
              clash (a.used s.heap v) (ap (a.used s.heap) (sym same) ∙ e)
                (a.fresh vfs_node_size s.heap (omega arith) a.node_room more));
          was_free = a.fresh vfs_node_size s.heap (omega arith) a.node_room more;
          now_used = λ j. a.taken vfs_node_size s.heap j (omega arith) a.node_room more;
          fewer = a.fewer vfs_node_size s.heap (omega arith) a.node_room more;
        })
    where
      not_node :
          (b : Bool)
          → is_node (kmalloc vfs_node_size s.heap).1 ≡ b
          → is_node (kmalloc vfs_node_size s.heap).1 ≡ false
      not_node true e =
          clash (a.used s.heap (kmalloc vfs_node_size s.heap).1) (t.nodes _ e).in_use
            (a.fresh vfs_node_size s.heap (omega arith) a.node_room more)
      not_node false e = e
