-- ===== src/Fs/Create.antt =====
-- New files and directories of kernel/src/fs/tmpfs.c keep the tree.
use mathlib.Core.Path.{subst}
use ded_os.Base.{
  ℕ, ◌+◌, ◌≤◌, ◌<◌, ◌≡◌, refl, ◌≢◌, sym, ◌∙◌, ap, ◌⊎◌, inl, inr, Bool, true, false, not, ◌||◌, List,
  [], arith, ◌==◌, ==_iff, ==-ne, if◌then◌else◌, if_true, if_false, Bool-cases,
}
use ded_os.Base.Memory.{update, update_self, update_ne, update_same}
use ded_os.Fs.{Files, TmpfsNode, vfs_file, vfs_directory}
use ded_os.Fs.Dir.{tmpfs_node_size}
use ded_os.Fs.Tmpfs.{tmpfs_create_file, tmpfs_create_dir}
use ded_os.Fs.Inv.{Allocator, NodeSet, Kids, IsTree}
use ded_os.Fs.Place.{Placed, old_ne}
use ded_os.Fs.Attach.{Created, placed-Created}

module _ {H : Type 0} {kmalloc : ℕ → H → H × ℕ} {kfree : ℕ → H → H} (a : Allocator H kmalloc kfree)
    {is_node : NodeSet} {kids : Kids} {s : Files H} (t : IsTree a is_node kids s) (parent : ℕ)
    (at_parent : is_node parent ≡ true) (blocks : 1 < a.left s.heap) where
  node_size : tmpfs_node_size ≤ a.largest
  node_size = omega (arith, a.node_room)

  new_node : ℕ
  new_node = (kmalloc tmpfs_node_size s.heap).1

  unused : a.used s.heap new_node ≡ false
  unfolding new_node
  unused = a.fresh tmpfs_node_size s.heap (omega arith) node_size (omega arith)

  -- In a directory, the guard lets the creation through.
  module _ (dir : (s.internal parent).flags ≡ vfs_directory) (name bytes : List ℕ) (size : ℕ)
      (fits : size ≤ a.largest) where
    passes : ((parent == 0) || not ((s.internal parent).flags == vfs_directory)) ≡ false
    passes =
        ap (λ b. b || not ((s.internal parent).flags == vfs_directory))
          (==-ne parent 0 (t.nodes parent at_parent).some_node)
        ∙ ap (λ f. not (f == vfs_directory)) dir

    heap_after : H
    heap_after =
        if size == 0
        then (kmalloc tmpfs_node_size s.heap).0
        else (kmalloc size (kmalloc tmpfs_node_size s.heap).0).0

    some_size : (size == 0) ≡ false → 0 < size
    some_size e = ground (arith, e)

    node_fewer : a.left s.heap ≤ a.left (kmalloc tmpfs_node_size s.heap).0 + 1
    node_fewer = a.fewer tmpfs_node_size s.heap (omega arith) node_size (omega arith)

    -- What the second request leaves: what was in use, and how many more are sure.
    heap_after-used :
        (j : ℕ) → a.used (kmalloc tmpfs_node_size s.heap).0 j ≡ true → a.used heap_after j ≡ true
    unfolding heap_after
    heap_after-used j used = elim (Bool-cases (size == 0)) [
      | inl empty ↦ rw empty used
      | inr some_bytes ↦ rw some_bytes (
          a.taken size (kmalloc tmpfs_node_size s.heap).0 j (some_size some_bytes) fits
            (omega (arith, node_fewer))
          ∙ either (j == (kmalloc size (kmalloc tmpfs_node_size s.heap).0).1) used)
    ]
      where
        either : (b : Bool) {x : Bool} → x ≡ true → (if b then true else x) ≡ true
        either true e = refl
        either false e = e

    heap_after-left : a.left s.heap ≤ a.left heap_after + 2
    unfolding heap_after
    heap_after-left = elim (Bool-cases (size == 0)) [
      | inl empty ↦ rw empty (omega (arith, node_fewer))
      | inr some_bytes ↦ rw some_bytes (
          omega (
            arith,
            node_fewer,
            a.fewer size (kmalloc tmpfs_node_size s.heap).0 (some_size some_bytes) fits
                (omega (arith, node_fewer)),
          ))
    ]

    node_used :
        (j : ℕ)
        → (a.used s.heap j ≡ true) ⊎ (j ≡ new_node)
        → a.used (kmalloc tmpfs_node_size s.heap).0 j ≡ true
    unfolding new_node
    node_used j (inl used) =
        a.taken tmpfs_node_size s.heap j (omega arith) node_size (omega arith)
        ∙ ground (arith, used)
    node_used j (inr e) =
        a.taken tmpfs_node_size s.heap j (omega arith) node_size (omega arith)
        ∙ if_true _ _ _ ((==_iff j (kmalloc tmpfs_node_size s.heap).1).1 e)

    file_node : TmpfsNode
    file_node = record {
      name = name;
      flags = vfs_file;
      size = size;
      contents = if size == 0 then [] else bytes;
      next = (s.internal parent).children;
      children = 0;
    }

    -- The nodes after the creation of a file, and with the flags `flags` in the new one.
    linked : ℕ → TmpfsNode
    unfolding file_node new_node
    linked =
        let above = update s.internal new_node file_node in
        update above parent (record (above parent) { children = new_node })

    nodes_after : ℕ → ℕ → TmpfsNode
    unfolding linked
    nodes_after flags = update linked new_node (record (linked new_node) { flags = flags })

    new_ne : new_node ≢ parent
    new_ne e = old_ne a t parent at_parent new_node unused parent at_parent (sym e)

    linked_new : linked new_node ≡ file_node
    unfolding linked
    linked_new =
        update_ne (update s.internal new_node file_node) parent _ new_node new_ne
        ∙ update_self s.internal new_node file_node

    at_new : (flags : ℕ) → nodes_after flags new_node ≡ record file_node { flags = flags }
    unfolding nodes_after
    at_new flags =
        update_self linked new_node (record (linked new_node) { flags = flags })
        ∙ ap (λ (n : TmpfsNode). record n { flags = flags }) linked_new

    after-Placed :
        (flags : ℕ)
        → (flags ≡ vfs_file) ⊎ (flags ≡ vfs_directory)
        → Placed a t parent at_parent new_node unused name (nodes_after flags) heap_after
    unfolding nodes_after file_node heap_after
    after-Placed flags kind =
        let above = update s.internal new_node file_node in
        let at = at_new flags in
        let parent_ne = λ (e : parent ≡ new_node). new_ne (sym e) in
        record {
          node_kind = rw at kind;
          node_name = ap (λ (n : TmpfsNode). n.name) at;
          node_next = ap (λ (n : TmpfsNode). n.next) at;
          node_bare = ap (λ (n : TmpfsNode). n.children) at;
          above =
              update_ne linked new_node _ parent parent_ne
              ∙ update_self above parent _
              ∙ ap (λ (n : TmpfsNode). record n { children = new_node })
                  (update_ne s.internal new_node file_node parent parent_ne);
          rest = λ j ne apart.
              update_ne linked new_node _ j ne
              ∙ update_ne above parent _ j apart
              ∙ update_ne s.internal new_node file_node j ne;
          some_new =
              unfold new_node in
              a.nonnull tmpfs_node_size s.heap (omega arith) node_size (omega arith);
          now_used = heap_after-used new_node (node_used new_node (inr refl));
          still_used = λ j used. heap_after-used j (node_used j (inl used));
        }

    after-Created :
        (flags : ℕ)
        → (flags ≡ vfs_file) ⊎ (flags ≡ vfs_directory)
        → Created a is_node kids parent flags size name
            (if size == 0 then [] else bytes)
            s
            (record s { heap = heap_after; internal = nodes_after flags })
            new_node
    unfolding file_node
    after-Created flags kind =
        let at = at_new flags in
        placed-Created a t parent at_parent new_node unused (after-Placed flags kind) flags size _
          (ap (λ (n : TmpfsNode). n.size) at) (ap (λ (n : TmpfsNode). n.contents) at)
          (ap (λ (n : TmpfsNode). n.flags) at) heap_after-left

    tmpfs_create_file_lem :
        tmpfs_create_file kmalloc parent name bytes size s
        ≡ (record s { heap = heap_after; internal = linked }, new_node)
    unfolding tmpfs_create_file linked file_node heap_after new_node
    tmpfs_create_file_lem = if_false _ _ _ passes

    linked_file : linked ≡ nodes_after vfs_file
    unfolding nodes_after file_node
    linked_file = sym (
        update_same linked new_node (record (linked new_node) { flags = vfs_file })
          (linked_new ∙ ap (λ (n : TmpfsNode). record n { flags = vfs_file }) (sym linked_new)))

    pub tmpfs_create_file-Created :
        Created a is_node kids parent vfs_file size name
          (if size == 0 then [] else bytes)
          s
          (tmpfs_create_file kmalloc parent name bytes size s).0
          (tmpfs_create_file kmalloc parent name bytes size s).1
    tmpfs_create_file-Created =
        subst
          (λ (r : Files H × ℕ).
            Created a is_node kids parent vfs_file size name (if size == 0 then [] else bytes) s r.0
              r.1)
          (sym (
            tmpfs_create_file_lem
            ∙ ap (λ (i : ℕ → TmpfsNode). (record s { heap = heap_after; internal = i }, new_node))
                linked_file))
          (after-Created vfs_file (inl refl))

  -- A new directory in a directory.
  pub tmpfs_create_dir-Created :
      (dir : (s.internal parent).flags ≡ vfs_directory) (name : List ℕ)
      → Created a is_node kids parent vfs_directory 0 name [] s
          (tmpfs_create_dir kmalloc parent name s).0
          (tmpfs_create_dir kmalloc parent name s).1
  tmpfs_create_dir-Created dir name =
      subst (λ (r : Files H × ℕ). Created a is_node kids parent vfs_directory 0 name [] s r.0 r.1)
        (sym made) (after-Created dir name [] 0 (omega arith) vfs_directory (inr refl))
    where
      flag : Files H × ℕ → Files H × ℕ
      flag r = if r.1 == 0 then (r.0, 0) else (
        record r.0 {
          internal = update r.0.internal r.1 (record (r.0.internal r.1) { flags = vfs_directory });
        },
        r.1,
      )

      made : tmpfs_create_dir kmalloc parent name s ≡ (
        record s {
          heap = heap_after dir name [] 0 (omega arith);
          internal = nodes_after dir name [] 0 (omega arith) vfs_directory;
        },
        new_node,
      )
      made =
          unfold tmpfs_create_dir in
          ap flag (tmpfs_create_file_lem dir name [] 0 (omega arith))
          ∙ if_false _ _ _ (
              ==-ne new_node 0 (
                unfold new_node in
                a.nonnull tmpfs_node_size s.heap (omega arith) node_size (omega arith)))
          ∙ unfold nodes_after in refl
