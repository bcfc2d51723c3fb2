-- ===== src/Fs/Tmpfs.antt =====
-- The file system in memory, kernel/src/fs/tmpfs.c: `tmpfs_init` and the creation of files and
-- directories. A null pointer that `kmalloc` returns is written through, as the code does not test
-- for it.
use ded_os.Base.{ℕ, not, ◌&&◌, ◌||◌, Option, none, some, List, [], ◌∷◌, ◌==◌, if◌then◌else◌}
use ded_os.Base.Memory.{update}
use ded_os.Base.Partial.{◌>>=◌}
use ded_os.Fs.{Files, TmpfsNode, is_directory, vfs_file, vfs_directory}
use ded_os.Fs.Dir.{tmpfs_create_vnode, tmpfs_node_size}
use ded_os.Fs.Vfs.{vfs_find_path, slash}

-- The two parts of a path at its last slash, if it has one: `strrchr` and the cut.
unfoldable pub split_last : List ℕ → Option (List ℕ × List ℕ)
split_last [] = none
split_last (c ∷ cs) = elim (split_last cs) [
  | some (dir, name) ↦ some (c ∷ dir, name)
  | none ↦ if c == slash then some ([], cs) else none
]

module _ {H : Type 0} (kmalloc : ℕ → H → H × ℕ) where
  -- The new node is the first of the parent's children.
  unfoldable pub tmpfs_create_file : ℕ → List ℕ → List ℕ → ℕ → Files H → Files H × ℕ
  tmpfs_create_file parent name bytes size s =
      let (heap1, new_node) = kmalloc tmpfs_node_size s.heap in
      let heap2 = if size == 0 then heap1 else (kmalloc size heap1).0 in
      let node : TmpfsNode = record {
        name = name;
        flags = vfs_file;
        size = size;
        contents = if size == 0 then [] else bytes;
        next = (s.internal parent).children;
        children = 0;
      } in
      let above = update s.internal new_node node in
      let linked = update above parent (record (above parent) { children = new_node }) in
      if (parent == 0) || not ((s.internal parent).flags == vfs_directory)
      then (s, 0)
      else (record s { heap = heap2; internal = linked }, new_node)

  unfoldable pub tmpfs_create_dir : ℕ → List ℕ → Files H → Files H × ℕ
  unfolding tmpfs_create_file
  tmpfs_create_dir parent name s =
      let (s', new_dir) = tmpfs_create_file parent name [] 0 s in
      let flagged = record (s'.internal new_dir) { flags = vfs_directory } in
      if new_dir == 0
      then (s', 0)
      else (record s' { internal = update s'.internal new_dir flagged }, new_dir)

  unfoldable pub tmpfs_init : Files H → Files H
  unfolding tmpfs_create_vnode
  tmpfs_init s =
      let (heap, root) = kmalloc tmpfs_node_size s.heap in
      let node : TmpfsNode = record {
        name = slash ∷ [];
        flags = vfs_directory;
        size = 0;
        contents = [];
        next = 0;
        children = 0;
      } in
      let s1 = record s {
        heap = heap;
        internal = update s.internal root node;
        root_internal = root;
      } in
      let (s2, vnode) = tmpfs_create_vnode kmalloc root s1 in record s2 { vfs_root = vnode }

  unfoldable pub tmpfs_get_root_internal : Files H → ℕ
  tmpfs_get_root_internal s = s.root_internal

module _ {H : Type 0} (kmalloc : ℕ → H → H × ℕ) (kfree : ℕ → H → H) where
  -- The node of the directory in which an entry is made: the root if the path has no slash or its
  -- directory is not found.
  unfoldable pub find_parent : ℕ → List ℕ → Files H → Option (Files H × ℕ)
  unfolding vfs_find_path
  find_parent fuel dir s = do
    (s', vnode) ← vfs_find_path kmalloc kfree fuel dir s
    let found = not (vnode == 0) && is_directory (s'.nodes vnode).flags
    some (s', if found then (s'.nodes vnode).device else s'.root_internal)

  unfoldable pub create_entry : ℕ → List ℕ → List ℕ → ℕ → ℕ → Files H → Files H × ℕ
  unfolding tmpfs_create_dir tmpfs_create_file
  create_entry parent name bytes size flags s =
      if is_directory flags
      then tmpfs_create_dir kmalloc parent name s
      else tmpfs_create_file kmalloc parent name bytes size s

  unfoldable pub tmpfs_add_entry : ℕ → List ℕ → List ℕ → ℕ → ℕ → Files H → Option (Files H × ℕ)
  unfolding split_last find_parent create_entry
  tmpfs_add_entry fuel full_path bytes size flags s = elim (split_last full_path) [
    | none ↦ some (create_entry s.root_internal full_path bytes size flags s)
    | some (dir, name) ↦ do
      (s', parent) ← find_parent fuel dir s
      some (create_entry parent name bytes size flags s')
  ]
