-- ===== src/Fs/Rounds.antt =====
-- One round of the loop of `vfs_find_path`, kernel/src/fs/vfs.c, on each of its branches.
use ded_os.Base.{
  ℕ, suc, ◌≡◌, refl, ◌≢◌, ◌∙◌, true, false, some, List, [], ◌∷◌, arith, ==-ne, ==_iff, if_true,
  if_false, length,
}
use ded_os.Base.Partial.{◌>>=◌}
use ded_os.Fs.{Files, is_directory}
use ded_os.Fs.Vfs.{char_at, scan_name, skip_slash, vfs_close, finddir, descend, find_loop}

module _ {H : Type 0} (kmalloc : ℕ → H → H × ℕ) (kfree : ℕ → H → H) (fuel : ℕ) (path : List ℕ)
    (cursor node : ℕ) (s : Files H) where
  pub find_loop_end :
      char_at path cursor ≡ 0
      → find_loop kmalloc kfree (suc fuel) path cursor node s ≡ some (s, node)
  unfolding find_loop
  find_loop_end e = if_true _ _ _ ((==_iff (char_at path cursor) 0).1 e)

  module _ (more : char_at path cursor ≢ 0) (c : ℕ) where
    pub find_loop_skip :
        scan_name (suc fuel) path cursor [] ≡ some (c, [])
        → find_loop kmalloc kfree (suc fuel) path cursor node s
          ≡ find_loop kmalloc kfree fuel path (skip_slash path c) node s
    unfolding find_loop
    find_loop_skip e = if_false _ _ _ (==-ne (char_at path cursor) 0 more) ∙ rw (e, ◌>>=◌) refl

    module _ (x : ℕ) (xs : List ℕ)
        (scanned : scan_name (suc fuel) path cursor [] ≡ some (c, x ∷ xs)) where
      pub find_loop_blocked :
          is_directory (s.nodes node).flags ≡ false
          → find_loop kmalloc kfree (suc fuel) path cursor node s ≡ some (s, 0)
      unfolding find_loop
      find_loop_blocked e =
          if_false _ _ _ (==-ne (char_at path cursor) 0 more)
          ∙ rw (scanned, ◌>>=◌)
              (if_false _ _ _ (==-ne (length (x ∷ xs)) 0 (λ e. omega arith)) ∙ if_false _ _ _ e)

      module _ (dir : is_directory (s.nodes node).flags ≡ true) (s1 : Files H) (next : ℕ)
          (finds : finddir kmalloc kfree (suc fuel) node (x ∷ xs) s ≡ some (s1, next)) where
        into :
            find_loop kmalloc kfree (suc fuel) path cursor node s
            ≡ descend kmalloc kfree
                (suc fuel)
                node
                (x ∷ xs)
                s
                (find_loop kmalloc kfree fuel path (skip_slash path c))
        unfolding find_loop
        into =
            if_false _ _ _ (==-ne (char_at path cursor) 0 more)
            ∙ rw (scanned, ◌>>=◌)
                (if_false _ _ _ (==-ne (length (x ∷ xs)) 0 (λ e. omega arith)) ∙ if_true _ _ _ dir)

        pub find_loop_missing :
            next ≡ 0
            → find_loop kmalloc kfree (suc fuel) path cursor node s
              ≡ some (vfs_close kfree node s1, 0)
        find_loop_missing e =
            into ∙ unfold descend in rw (finds, ◌>>=◌) (if_true _ _ _ ((==_iff next 0).1 e))

        pub find_loop_down :
            next ≢ 0
            → find_loop kmalloc kfree (suc fuel) path cursor node s
              ≡ find_loop kmalloc kfree fuel path (skip_slash path c) next (vfs_close kfree node s1)
        find_loop_down ne =
            into ∙ unfold descend in rw (finds, ◌>>=◌) (if_false _ _ _ (==-ne next 0 ne))
