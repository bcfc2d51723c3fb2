-- ===== src/Fs/Close.antt =====
-- Closing the node above keeps the tree of kernel/src/fs, and the node below open.
use mathlib.Core.Path.{subst}
use ded_os.Base.{
  ℕ, ◌≡◌, refl, ◌≢◌, sym, ◌∙◌, ap, ◌⊎◌, inl, inr, Bool, true, false, arith, ◌==◌, ==_iff,
  Bool-cases, if◌then◌else◌, if_true, if_false,
}
use ded_os.Fs.{Files, VfsNode, TmpfsNode, vfs_file, vfs_directory}
use ded_os.Fs.Vfs.{vfs_close}
use ded_os.Fs.Inv.{Allocator, Chain, NodeSet, Kids, Mirrors, IsTree}
use ded_os.Fs.Lookup.{Opened}
use ded_os.Fs.Open.{
  without, vfs_close-used, vfs_close-internal, vfs_close-nodes, vfs_close-root, vfs_close-vroot,
}

pub clash : {A : Type 0} (b : Bool) → b ≡ true → b ≡ false → A
clash b e h = cc

module _ {H : Type 0} {kmalloc : ℕ → H → H × ℕ} {kfree : ℕ → H → H} (a : Allocator H kmalloc kfree)
    {is_node : NodeSet} where
  still :
      {s' : Files H} (s2 : Files H)
      → s2.internal ≡ s'.internal
      → (u e : ℕ) → Mirrors a is_node s' u e
      → a.used s2.heap u ≡ true
      → s2.nodes u ≡ s'.nodes u
      → Mirrors a is_node s2 u e
  still s2 same u e m used node = record {
    some_vnode = m.some_vnode;
    in_use = used;
    no_node = m.no_node;
    device = ap (λ (n : VfsNode). n.device) node ∙ m.device;
    same_flags =
        ap (λ (n : VfsNode). n.flags) node
        ∙ m.same_flags
        ∙ ap (λ (i : ℕ → TmpfsNode). (i e).flags) (sym same);
    same_size =
        ap (λ (n : VfsNode). n.size) node
        ∙ m.same_size
        ∙ ap (λ (i : ℕ → TmpfsNode). (i e).size) (sym same);
    can_read = ap (λ (n : VfsNode). n.read) node ∙ m.can_read;
    can_find = ap (λ (n : VfsNode). n.finddir) node ∙ m.can_find;
  }

module _ {H : Type 0} {kmalloc : ℕ → H → H × ℕ} {kfree : ℕ → H → H}
    (a : Allocator H kmalloc kfree) where
  -- A state with the same files, in which what was in use still is.
  record Later (s s1 : Files H) : Type 0 where
    internal : s1.internal ≡ s.internal
    root : s1.root_internal ≡ s.root_internal
    vroot : s1.vfs_root ≡ s.vfs_root
    others : (u : ℕ) → a.used s.heap u ≡ true → s1.nodes u ≡ s.nodes u
    used : (u : ℕ) → a.used s.heap u ≡ true → a.used s1.heap u ≡ true

module _ {H : Type 0} {kmalloc : ℕ → H → H × ℕ} {kfree : ℕ → H → H} (a : Allocator H kmalloc kfree)
    {is_node : NodeSet} {kids : Kids} where
  -- Closing a node, which is none of tmpfs, keeps the tree.
  closed-IsTree :
      {s s1 : Files H} (v d : ℕ)
      → IsTree a is_node kids s
      → Mirrors a is_node s v d
      → Later a s s1
      → IsTree a is_node kids (vfs_close kfree v s1)
  closed-IsTree {s} {s1} v d t m o =
      let s2 = vfs_close kfree v s1 in
      let same : s2.internal ≡ s.internal = vfs_close-internal a s1 v ∙ o.internal in
      let at_root = vfs_close-root a s1 v ∙ o.root in
      let at_vroot = vfs_close-vroot a s1 v ∙ o.vroot in
      let mount : Mirrors a is_node s2 s.vfs_root s.root_internal =
        still a s2 same s.vfs_root s.root_internal t.mount
          (root_kept (Bool-cases (v == s1.vfs_root)))
          (ap (λ (n : ℕ → VfsNode). n s.vfs_root) (vfs_close-nodes a s1 v)
            ∙ o.others s.vfs_root t.mount.in_use) in
      record {
        nodes = λ j e.
            let n = t.nodes j e in
            record {
              some_node = n.some_node;
              in_use = kept j (node_ne j e) n.in_use;
              kind =
                  subst
                    (λ (i : ℕ → TmpfsNode).
                      ((i j).flags ≡ vfs_file) ⊎ ((i j).flags ≡ vfs_directory))
                    (sym same) n.kind;
              linked =
                  subst (λ (i : ℕ → TmpfsNode). Chain i (i j).children (kids j)) (sym same)
                    n.linked;
              below = n.below;
            };
        root = ap is_node at_root ∙ t.root;
        root_dir =
            ap (λ r. (s2.internal r).flags) at_root
            ∙ ap (λ (i : ℕ → TmpfsNode). (i s.root_internal).flags) same
            ∙ t.root_dir;
        mount =
            subst (λ u. Mirrors a is_node s2 u s2.root_internal) (sym at_vroot)
              (subst (λ r. Mirrors a is_node s2 s.vfs_root r) (sym at_root) mount);
      }
    where
      node_ne : (j : ℕ) → is_node j ≡ true → j ≢ v
      node_ne j e same = clash (is_node v) (ap is_node (sym same) ∙ e) m.no_node

      kept : (j : ℕ) → j ≢ v → a.used s.heap j ≡ true → without a s1 v j ≡ true
      kept j ne used =
          vfs_close-used a s1 v j m.some_vnode (o.used v m.in_use) ∙ ground (arith, o.used j used)

      root_kept :
          ((v == s1.vfs_root) ≡ true) ⊎ ((v == s1.vfs_root) ≡ false)
          → without a s1 v s.vfs_root ≡ true
      root_kept (inl e) =
          vfs_close-used a s1 v s.vfs_root m.some_vnode (o.used v m.in_use)
          ∙ if_true _ _ _ e
          ∙ o.used s.vfs_root t.mount.in_use
      root_kept (inr e) =
          kept s.vfs_root
            (λ same. clash (v == s1.vfs_root) ((==_iff v s1.vfs_root).1 (sym same ∙ sym o.vroot)) e)
            t.mount.in_use

  -- So does closing one after a lookup that found nothing.
  pub close-IsTree_missing :
      {s : Files H} (v d : ℕ)
      → IsTree a is_node kids s
      → Mirrors a is_node s v d
      → IsTree a is_node kids (vfs_close kfree v s)
  close-IsTree_missing v d t m =
      closed-IsTree v d t m (record {
        internal = refl;
        root = refl;
        vroot = refl;
        others = λ u e. refl;
        used = λ u e. e;
      })

  -- After one that found a child, its node stays open in place of the one that is closed.
  pub close-IsTree :
      {s s1 : Files H} {v next c : ℕ} (t : IsTree a is_node kids s) (d : ℕ)
      → Mirrors a is_node s v d
      → Opened a t s1 next c
      → IsTree a is_node kids (vfs_close kfree v s1)
        × Mirrors a is_node (vfs_close kfree v s1) next c
        × ((j : ℕ) → without a (vfs_close kfree v s1) next j ≡ without a s v j)
  close-IsTree {s} {s1} {v} {next} {c} t d m o =
      let s2 = vfs_close kfree v s1 in
      let nodes : s2.nodes ≡ s1.nodes = vfs_close-nodes a s1 v in
      let at_vroot : s2.vfs_root ≡ s.vfs_root = vfs_close-vroot a s1 v ∙ o.vroot in
      let next_used : a.used s2.heap next ≡ true =
        vfs_close-used a s1 v next m.some_vnode (used1 v m.in_use)
        ∙ ground (arith, o.now_used next, next_ne v m.in_use) in
      (
        closed-IsTree v d t m (record {
          internal = o.internal;
          root = o.root;
          vroot = o.vroot;
          others = o.others;
          used = used1;
        }),
        still a s2 (vfs_close-internal a s1 v) next c o.mirrors next_used
            (ap (λ (n : ℕ → VfsNode). n next) nodes),
        (λ j.
            vfs_close-used a s2 next j o.mirrors.some_vnode next_used
            ∙ ap
                (λ r.
                  if next == r
                  then a.used s2.heap j
                  else if j == next
                  then false
                  else a.used s2.heap j)
                at_vroot
            ∙ ap (λ x. if next == s.vfs_root then x else if j == next then false else x)
                (vfs_close-used a s1 v j m.some_vnode (used1 v m.in_use))
            ∙ ap
                (λ r.
                  if next == s.vfs_root
                  then (if v == r
                      then a.used s1.heap j
                      else if j == v
                      then false
                      else a.used s1.heap j)
                  else if j == next
                  then false
                  else (if v == r
                      then a.used s1.heap j
                      else if j == v
                      then false
                      else a.used s1.heap j))
                o.vroot
            ∙ shuffle j (next_ne s.vfs_root t.mount.in_use) (Bool-cases (j == next))
            ∙ sym (vfs_close-used a s v j m.some_vnode m.in_use)),
      )
    where
      either : (b : Bool) {x : Bool} → x ≡ true → (if b then true else x) ≡ true
      either true e = refl
      either false e = e

      used1 : (u : ℕ) → a.used s.heap u ≡ true → a.used s1.heap u ≡ true
      used1 u e = o.now_used u ∙ either (u == next) e

      next_ne : (u : ℕ) → a.used s.heap u ≡ true → next ≢ u
      next_ne u used e = clash (a.used s.heap u) used (ap (a.used s.heap) (sym e) ∙ o.was_free)

      shuffle :
          (j : ℕ)
          → next ≢ s.vfs_root
          → ((j == next) ≡ true) ⊎ ((j == next) ≡ false)
          → (if next == s.vfs_root
              then (if v == s.vfs_root
                  then a.used s1.heap j
                  else if j == v
                  then false
                  else a.used s1.heap j)
              else if j == next
              then false
              else (if v == s.vfs_root
                  then a.used s1.heap j
                  else if j == v
                  then false
                  else a.used s1.heap j))
            ≡ (if v == s.vfs_root
                then a.used s.heap j
                else if j == v
                then false
                else a.used s.heap j)
      shuffle j ne (inl e) =
          let free : a.used s.heap j ≡ false =
            ap (a.used s.heap) ((==_iff j next).0 e) ∙ o.was_free in
          ground (arith, free)
      shuffle j ne (inr e) =
          let same : a.used s1.heap j ≡ a.used s.heap j = o.now_used j ∙ if_false _ _ _ e in
          ground (arith, same)
