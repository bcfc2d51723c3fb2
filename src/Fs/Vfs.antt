-- ===== src/Fs/Vfs.antt =====
-- The virtual file system, kernel/src/fs/vfs.c. A path is the list of its characters; `path[cursor]` is
-- 0 at its end. `cursor` is a `uint8_t` and wraps. The loops take fuel, and so does the walk of
-- `finddir`, through the function pointer of the node.
use ded_os.Base.{
  ℕ, zero, suc, ◌+◌, ◌%◌, ◌&&◌, ◌||◌, Option, none, some, List, [], ◌∷◌, ◌++◌, ltb, ◌==◌,
  if◌then◌else◌, get_or, length,
}
use ded_os.Base.Partial.{◌>>=◌}
use ded_os.Fs.{Files, tmpfs, is_directory}
use ded_os.Fs.Dir.{tmpfs_read, tmpfs_finddir}

-- `/`.
abbrev pub slash : ℕ
slash = 47

abbrev pub char_at : List ℕ → ℕ → ℕ
char_at path cursor = get_or path cursor 0

-- The loop that copies one name, of which at most 127 characters are kept.
unfoldable pub scan_name : ℕ → List ℕ → ℕ → List ℕ → Option (ℕ × List ℕ)
scan_name zero path cursor name = none
scan_name (suc fuel) path cursor name =
    let c = char_at path cursor in
    let longer = if ltb (length name) 127 then name ++ (c ∷ []) else name in
    let rest = scan_name fuel path ((cursor + 1) % 256) longer in
    if (c == slash) || (c == 0) then some (cursor, name) else rest

-- `if (path[cursor] == '/') cursor++`.
abbrev pub skip_slash : List ℕ → ℕ → ℕ
skip_slash path cursor = if char_at path cursor == slash then (cursor + 1) % 256 else cursor

module _ {H : Type 0} where
  unfoldable pub vfs_read : Files H → ℕ → ℕ → ℕ → ℕ × List ℕ
  unfolding tmpfs_read
  vfs_read s node offset size = elim (s.nodes node).read [
    | none ↦ (0, [])
    | some tmpfs ↦ tmpfs_read s node offset size
  ]

module _ {H : Type 0} (kfree : ℕ → H → H) where
  unfoldable pub vfs_close : ℕ → Files H → Files H
  vfs_close node s =
      if (node == 0) || (node == s.vfs_root) then s else record s { heap = kfree node s.heap }

module _ {H : Type 0} (kmalloc : ℕ → H → H × ℕ) (kfree : ℕ → H → H) where
  -- `node->finddir(node, name)`; a call through a null pointer does not return.
  unfoldable pub finddir : ℕ → ℕ → List ℕ → Files H → Option (Files H × ℕ)
  unfolding tmpfs_finddir
  finddir fuel node name s = elim (s.nodes node).finddir [
    | none ↦ none
    | some tmpfs ↦ tmpfs_finddir kmalloc fuel node name s
  ]

  -- One component: `again` is the loop from the node below.
  unfoldable pub descend :
      ℕ → ℕ → List ℕ → Files H → (ℕ → Files H → Option (Files H × ℕ)) → Option (Files H × ℕ)
  unfolding finddir vfs_close
  descend fuel current_node name s again = do
    (s1, next) ← finddir fuel current_node name s
    let closed = vfs_close kfree current_node s1
    let below = again next closed
    if next == 0 then some (closed, 0) else below

  -- The loop over the components, at `cursor` in `current_node`.
  unfoldable pub find_loop : ℕ → List ℕ → ℕ → ℕ → Files H → Option (Files H × ℕ)
  unfolding scan_name descend
  find_loop zero path cursor current_node s = none
  find_loop (suc fuel) path cursor current_node s =
      let after = λ (r : ℕ × List ℕ).
        let again = find_loop fuel path (skip_slash path r.0) in
        let skipped = again current_node s in
        let deeper = descend (suc fuel) current_node r.1 s again in
        if length r.1 == 0
        then skipped
        else if is_directory (s.nodes current_node).flags
        then deeper
        else some (s, 0) in
      let rounds = scan_name (suc fuel) path cursor [] >>= after in
      if char_at path cursor == 0 then some (s, current_node) else rounds

  unfoldable pub vfs_find_path : ℕ → List ℕ → Files H → Option (Files H × ℕ)
  unfolding find_loop
  vfs_find_path fuel path s =
      let first = if char_at path 0 == slash then 1 else 0 in
      if char_at path 0 == 0
      then some (s, 0)
      else if (char_at path 0 == slash) && (char_at path 1 == 0)
      then some (s, s.vfs_root)
      else find_loop fuel path first s.vfs_root s
