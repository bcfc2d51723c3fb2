-- ===== src/Fs/Dir.antt =====
-- What kernel/src/fs/tmpfs.c does for the virtual file system: `tmpfs_read` and `tmpfs_finddir`. The
-- walk over the children takes fuel; more than their number is enough.
use ded_os.Base.{
  ℕ, zero, suc, ◌-◌, Bool, true, false, ◌&&◌, Option, none, some, List, [], ◌∷◌, ltb, leb, ◌==◌,
  if◌then◌else◌,
}
use ded_os.Base.Word.{add64}
use ded_os.Base.Memory.{update}
use ded_os.Fs.{Files, VfsNode, tmpfs, vfs_directory}

-- `strcmp(a, b) == 0`.
unfoldable pub same_name : List ℕ → List ℕ → Bool
same_name [] [] = true
same_name (x ∷ xs) [] = false
same_name [] (y ∷ ys) = false
same_name (x ∷ xs) (y ∷ ys) = (x == y) && same_name xs ys

-- The `n` bytes from `offset` on, as far as the block goes.
unfoldable pub slice : ℕ → ℕ → List ℕ → List ℕ
slice offset n [] = []
slice zero zero (b ∷ bs) = []
slice zero (suc n) (b ∷ bs) = b ∷ slice zero n bs
slice (suc offset) n (b ∷ bs) = slice offset n bs

-- sizeof(vfs_node_t) and sizeof(struct tmpfs_node).
abbrev pub vfs_node_size : ℕ
vfs_node_size = 192

abbrev pub tmpfs_node_size : ℕ
tmpfs_node_size = 168

module _ {H : Type 0} where
  -- The number of bytes that are read, and the bytes that reach the buffer.
  unfoldable pub tmpfs_read : Files H → ℕ → ℕ → ℕ → ℕ × List ℕ
  tmpfs_read s node offset size =
      let file = s.internal (s.nodes node).device in
      let size' = if ltb file.size (add64 offset size) then file.size - offset else size in
      if leb file.size offset then (0, []) else (size', slice offset size' file.contents)

module _ {H : Type 0} (kmalloc : ℕ → H → H × ℕ) where
  unfoldable pub tmpfs_create_vnode : ℕ → Files H → Files H × ℕ
  tmpfs_create_vnode p s =
      let file = s.internal p in
      let (heap, node) = kmalloc vfs_node_size s.heap in
      let new : VfsNode = record {
        name = file.name;
        flags = file.flags;
        size = file.size;
        device = p;
        read = some tmpfs;
        finddir = some tmpfs;
      } in
      if p == 0 then (s, 0) else (record s { heap = heap; nodes = update s.nodes node new }, node)

  -- The walk over the children from `current` on.
  unfoldable pub find_child : ℕ → ℕ → List ℕ → Files H → Option (Files H × ℕ)
  find_child zero current name s = none
  find_child (suc fuel) current name s =
      let rest = find_child fuel (s.internal current).next name s in
      if current == 0
      then some (s, 0)
      else if same_name (s.internal current).name name
      then some (tmpfs_create_vnode current s)
      else rest

  unfoldable pub tmpfs_finddir : ℕ → ℕ → List ℕ → Files H → Option (Files H × ℕ)
  tmpfs_finddir fuel dir name s =
      let internal_dir = s.internal (s.nodes dir).device in
      if internal_dir.flags == vfs_directory
      then find_child fuel internal_dir.children name s
      else some (s, 0)
