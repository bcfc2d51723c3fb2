-- ===== src/Fs/Find.antt =====
-- `vfs_find_path` of kernel/src/fs/vfs.c as a whole, and paths made of names.
use mathlib.Core.Path.{subst, fun_ext}
use ded_os.Base.{
  ℕ, zero, suc, ◌+◌, ◌≤◌, ◌<◌, ◌≡◌, refl, ◌≢◌, sym, ◌∙◌, ap, ◌⊎◌, inl, inr, true, false, ◌&&◌,
  Option, none, some, List, [], ◌∷◌, ◌++◌, arith, ◌==◌, ==_iff, ==-ne, ==_self, Bool-cases,
  if◌then◌else◌, if_true, if_false, length,
}
use ded_os.Base.Partial.{◌>>=◌}
use ded_os.Fs.{Files}
use ded_os.Fs.Vfs.{slash, char_at, vfs_find_path, find_loop}
use ded_os.Fs.Names.{IsText, put_name, components, components-slash}
use ded_os.Fs.Scan.{scan_name-diverges}
use ded_os.Fs.Inv.{Allocator, NodeSet, Kids, IsTree, found, resolve}
use ded_os.Fs.Open.{without, vfs_close-used, Walked}
use ded_os.Fs.Resolve.{Ends, find_loop-Walked}

module _ {H : Type 0} {kmalloc : ℕ → H → H × ℕ} {kfree : ℕ → H → H} (a : Allocator H kmalloc kfree)
    (is_node : NodeSet) (kids : Kids) where
  -- The lookup ends, where the names of the path lead from the root.
  abbrev pub Finds : ℕ → List ℕ → Files H → Type 0
  Finds fuel path s =
      (s' : Files H) × (u : ℕ) × (vfs_find_path kmalloc kfree fuel path s ≡ some (s', u))
      × Walked a is_node kids (resolve s.internal kids s.root_internal (components [] path))
          (a.used s.heap) s s' u
      × (a.left s.heap ≤ a.left s'.heap + length path)

module _ {H : Type 0} {kmalloc : ℕ → H → H × ℕ} {kfree : ℕ → H → H} (a : Allocator H kmalloc kfree)
    {is_node : NodeSet} {kids : Kids} where
  root_without : {s : Files H} → IsTree a is_node kids s → without a s s.vfs_root ≡ a.used s.heap
  root_without {s} t = fun_ext λ j.
      vfs_close-used a s s.vfs_root j t.mount.some_vnode t.mount.in_use
      ∙ if_true _ _ _ (==_self s.vfs_root)

  found_root :
      {s : Files H}
      → IsTree a is_node kids s
      → Walked a is_node kids (found s.root_internal) (a.used s.heap) s s s.vfs_root
  found_root {s} t = record {
    returns = record { mirrors = t.mount; only = λ j. self j (Bool-cases (j == s.vfs_root)) };
    internal = refl;
    root = refl;
    vroot = refl;
    tree = t;
  }
    where
      self :
          (j : ℕ)
          → ((j == s.vfs_root) ≡ true) ⊎ ((j == s.vfs_root) ≡ false)
          → a.used s.heap j ≡ (if j == s.vfs_root then true else a.used s.heap j)
      self j (inl e) =
          ap (a.used s.heap) ((==_iff j s.vfs_root).0 e) ∙ t.mount.in_use ∙ sym (if_true _ _ _ e)
      self j (inr e) = sym (if_false _ _ _ e)

  from_loop :
      {s : Files H} (fuel : ℕ) (path pre rest : List ℕ)
      → IsTree a is_node kids s
      → vfs_find_path kmalloc kfree fuel path s
        ≡ find_loop kmalloc kfree fuel (pre ++ rest) (length pre) s.vfs_root s
      → components [] path ≡ components [] rest
      → length rest ≤ length path
      → Ends a is_node kids fuel pre rest s.vfs_root s.root_internal s
      → Finds a is_node kids fuel path s
  from_loop {s} fuel path pre rest t enters names shorter (s', u, runs, w, spent) = (
    s',
    u,
    enters ∙ runs,
    subst
        (λ ns.
          Walked a is_node kids (resolve s.internal kids s.root_internal ns) (a.used s.heap) s s' u)
        (sym names)
        (subst
          (λ b.
            Walked a is_node kids (resolve s.internal kids s.root_internal (components [] rest)) b s
              s' u)
          (root_without t) w),
    omega (arith, spent),
  )

  -- On a tree whose directories have at most `width` entries, and for a path of 1 to 255 characters, when
  -- the heap is sure to serve a request for each of them, `vfs_find_path` ends, with `width` rounds more
  -- than the path has characters, and returns what the names of the path lead to from the root: an open
  -- node for a file or directory that is there, and NULL else. All other nodes that it opened are closed
  -- again, but for that of a file which the path tries to pass through. The tree stays as it is, and the
  -- requests that are sure fall by one for each character at most.
  pub vfs_find_path-Walked :
      {s : Files H} (fuel width : ℕ) (path : List ℕ)
      → IsTree a is_node kids s
      → ((d : ℕ) → length (kids d) ≤ width)
      → IsText path
      → path ≢ []
      → length path < 256
      → length path + width < fuel
      → length path ≤ a.left s.heap
      → Finds a is_node kids fuel path s
  unfolding vfs_find_path
  vfs_find_path-Walked {s} fuel width [] t room text ne small enough blocks = absurd (ne refl)
  vfs_find_path-Walked {s} fuel width (c ∷ cs) t room (some_char, text) ne small enough blocks =
      let start : (if c == 0 then some (s, 0) else go) ≡ go =
        if_false _ _ _ (==-ne c 0 some_char) in
      elim (Bool-cases (c == slash)) [
        | inl yes_slash ↦
            at_slash cs text (components-slash [] cs c yes_slash ∙ unfold put_name in refl)
              yes_slash small enough blocks start
        | inr no_slash ↦
            from_loop fuel (c ∷ cs) [] (c ∷ cs) t
              (start
                ∙ if_false _ _ _ (ap (λ b. b && (char_at cs 0 == 0)) no_slash)
                ∙ ap (λ k. find_loop kmalloc kfree fuel (c ∷ cs) k s.vfs_root s)
                    (if_false (c == slash) 1 0 no_slash))
              refl (omega arith)
              (find_loop-Walked a is_node kids fuel width [] (c ∷ cs) s.vfs_root s.root_internal t
                t.mount t.root room (some_char, text) small enough blocks)
      ]
    where
      go : Option (Files H × ℕ)
      go =
          if (c == slash) && (char_at cs 0 == 0)
          then some (s, s.vfs_root)
          else find_loop kmalloc kfree fuel (c ∷ cs) (if c == slash then 1 else 0) s.vfs_root s

      at_slash :
          (cs : List ℕ)
          → IsText cs
          → components [] (c ∷ cs) ≡ components [] cs
          → (c == slash) ≡ true
          → length (c ∷ cs) < 256
          → length (c ∷ cs) + width < fuel
          → length (c ∷ cs) ≤ a.left s.heap
          → vfs_find_path kmalloc kfree fuel (c ∷ cs) s ≡ (
              if (c == slash) && (char_at cs 0 == 0)
              then some (s, s.vfs_root)
              else find_loop kmalloc kfree fuel (c ∷ cs) (if c == slash then 1 else 0) s.vfs_root s)
          → Finds a is_node kids fuel (c ∷ cs) s
      at_slash [] text names e small enough blocks start = (
        s,
        s.vfs_root,
        start ∙ if_true _ _ _ (ap (λ b. b && true) e),
        subst
            (λ ns.
              Walked a is_node kids (resolve s.internal kids s.root_internal ns) (a.used s.heap) s s
                s.vfs_root)
            (sym names) (unfold components put_name resolve in found_root t),
        omega arith,
      )
      at_slash (x ∷ xs) (nx, text) names e small enough blocks start =
          from_loop fuel (c ∷ x ∷ xs) (c ∷ []) (x ∷ xs) t
            (start
              ∙ if_false _ _ _ (ap (λ b. b && (x == 0)) e ∙ ==-ne x 0 nx)
              ∙ ap (λ k. find_loop kmalloc kfree fuel (c ∷ x ∷ xs) k s.vfs_root s)
                  (if_true (c == slash) 1 0 e))
            names (omega arith)
            (find_loop-Walked a is_node kids fuel width (c ∷ []) (x ∷ xs) s.vfs_root s.root_internal
              t t.mount t.root room (nx, text) small (omega arith) (omega arith))

-- A path whose first 256 characters are neither its end nor a slash sends `vfs_find_path` round and round:
-- whatever the fuel, the lookup does not end.
pub vfs_find_path-diverges :
    {H : Type 0} (kmalloc : ℕ → H → H × ℕ) (kfree : ℕ → H → H) (fuel : ℕ) (path : List ℕ)
    (s : Files H)
    → ((k : ℕ) → k < 256 → (char_at path k ≢ slash) × (char_at path k ≢ 0))
    → vfs_find_path kmalloc kfree fuel path s ≡ none
unfolding vfs_find_path find_loop
vfs_find_path-diverges kmalloc kfree fuel path s long =
    let (no_slash, no_end) = long 0 (omega arith) in
    if_false _ _ _ (==-ne (char_at path 0) 0 no_end)
    ∙ if_false _ _ _ (ap (λ b. b && (char_at path 1 == 0)) (==-ne (char_at path 0) slash no_slash))
    ∙ ap (λ k. find_loop kmalloc kfree fuel path k s.vfs_root s)
        (if_false (char_at path 0 == slash) 1 0 (==-ne (char_at path 0) slash no_slash))
    ∙ loop fuel
  where
    loop : (n : ℕ) → find_loop kmalloc kfree n path 0 s.vfs_root s ≡ none
    loop zero = refl
    loop (suc n) =
        if_false _ _ _ (==-ne (char_at path 0) 0 (long 0 (omega arith)).1)
        ∙ rw (scan_name-diverges (suc n) path 0 [] long (omega arith), ◌>>=◌) refl
