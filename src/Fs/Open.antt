-- ===== src/Fs/Open.antt =====
-- The nodes that a lookup of kernel/src/fs/vfs.c leaves open.
use ded_os.Base.{
  ℕ, ◌≤◌, ◌≡◌, refl, ◌≢◌, sym, ◌∙◌, ap, inl, inr, Bool, true, false, ◌||◌, arith, ◌==◌, ==_iff,
  ==-ne, Bool-cases, if◌then◌else◌, if_true, if_false, if_map, if_both,
}
use ded_os.Fs.{Files}
use ded_os.Fs.Vfs.{vfs_close}
use ded_os.Fs.Inv.{Allocator, NodeSet, Kids, Mirrors, IsTree, Outcome, found, missing, through}

module _ {H : Type 0} {kmalloc : ℕ → H → H × ℕ} {kfree : ℕ → H → H}
    (a : Allocator H kmalloc kfree) where
  -- The addresses in use once the node `v` is closed.
  abbrev pub without : Files H → ℕ → ℕ → Bool
  without s v j = a.used (vfs_close kfree v s).heap j

  pub vfs_close-used :
      (s : Files H) (v j : ℕ)
      → v ≢ 0
      → a.used s.heap v ≡ true
      → without s v j
        ≡ (if v == s.vfs_root then a.used s.heap j else if j == v then false else a.used s.heap j)
  unfolding vfs_close
  vfs_close-used s v j ne used =
      ap
        (λ b.
          a.used (if b || (v == s.vfs_root) then s else record s { heap = kfree v s.heap }).heap j)
        (==-ne v 0 ne)
      ∙ if_map (λ (t : Files H). a.used t.heap j) (v == s.vfs_root) refl (a.freed v s.heap j used)

  pub vfs_close-left :
      (s : Files H) (v : ℕ)
      → a.used s.heap v ≡ true
      → a.left s.heap ≤ a.left (vfs_close kfree v s).heap
  unfolding vfs_close
  vfs_close-left s v used =
      if_both (λ (t : Files H). a.left s.heap ≤ a.left t.heap) ((v == 0) || (v == s.vfs_root))
        (omega arith) (a.kept v s.heap used)

  -- Closing changes the heap only.
  pub vfs_close-internal : (s : Files H) (v : ℕ) → (vfs_close kfree v s).internal ≡ s.internal
  unfolding vfs_close
  vfs_close-internal s v =
      if_both (λ (t : Files H). t.internal ≡ s.internal) ((v == 0) || (v == s.vfs_root)) refl refl

  pub vfs_close-nodes : (s : Files H) (v : ℕ) → (vfs_close kfree v s).nodes ≡ s.nodes
  unfolding vfs_close
  vfs_close-nodes s v =
      if_both (λ (t : Files H). t.nodes ≡ s.nodes) ((v == 0) || (v == s.vfs_root)) refl refl

  pub vfs_close-root : (s : Files H) (v : ℕ) → (vfs_close kfree v s).root_internal ≡ s.root_internal
  unfolding vfs_close
  vfs_close-root s v =
      if_both (λ (t : Files H). t.root_internal ≡ s.root_internal) ((v == 0) || (v == s.vfs_root))
        refl refl

  pub vfs_close-vroot : (s : Files H) (v : ℕ) → (vfs_close kfree v s).vfs_root ≡ s.vfs_root
  unfolding vfs_close
  vfs_close-vroot s v =
      if_both (λ (t : Files H). t.vfs_root ≡ s.vfs_root) ((v == 0) || (v == s.vfs_root)) refl refl

  -- A node that is open makes up for its closing.
  pub open_without :
      (s : Files H) (v j : ℕ)
      → v ≢ 0
      → a.used s.heap v ≡ true
      → a.used s.heap j ≡ (if j == v then true else without s v j)
  open_without s v j ne used = elim (Bool-cases (j == v)) [
    | inl same ↦ ap (a.used s.heap) ((==_iff j v).0 same) ∙ used ∙ sym (if_true _ _ _ same)
    | inr apart ↦ sym (if_false _ _ _ apart ∙ vfs_close-used s v j ne used ∙ ground (arith, apart))
  ]

  module _ (is_node : NodeSet) where
    -- The node `v`, open, stands for `d`, and else the addresses `before` are in use.
    pub record Open (before : ℕ → Bool) (s : Files H) (v d : ℕ) : Type 0 where
      pub mirrors : Mirrors a is_node s v d
      pub only : (j : ℕ) → a.used s.heap j ≡ (if j == v then true else before j)

    -- What a lookup returns: a node for what is found, or NULL. A path through a file leaves the node of
    -- that file open.
    abbrev pub Returns : Outcome → (ℕ → Bool) → Files H → ℕ → Type 0
    Returns (found d) before s v = Open before s v d
    Returns missing before s v = (v ≡ 0) × ((j : ℕ) → a.used s.heap j ≡ before j)
    Returns (through d) before s v = (v ≡ 0) × (u : ℕ) × Open before s u d

    pub record Walked (kids : Kids) (o : Outcome) (before : ℕ → Bool) (s s' : Files H) (v : ℕ)
        : Type 0 where
      pub returns : Returns o before s' v
      pub internal : s'.internal ≡ s.internal
      pub root : s'.root_internal ≡ s.root_internal
      pub vroot : s'.vfs_root ≡ s.vfs_root
      pub tree : IsTree a is_node kids s'
