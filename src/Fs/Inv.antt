-- ===== src/Fs/Inv.antt =====
-- What the files of kernel/src/fs rely on in the heap, and the invariant of the nodes of tmpfs.
use ded_os.Base.{
  ℕ, ◌+◌, ◌<◌, ◌≤◌, ◌≡◌, ◌≢◌, ◌⊎◌, Bool, true, false, some, List, [], ◌∷◌, All, ◌==◌, if◌then◌else◌,
}
use ded_os.Fs.{Files, TmpfsNode, tmpfs, vfs_file, vfs_directory}
use ded_os.Fs.Dir.{same_name}

-- What is sure of the heap: with `left` above 0, a request of 1 to `largest` bytes is served by an address
-- that is not in use, and takes at most one off `left`; `kfree` of an address in use ends its use. Of
-- other requests nothing is known. `used` is the set of addresses in use.
pub record Allocator (H : Type 0) (kmalloc : ℕ → H → H × ℕ) (kfree : ℕ → H → H) : Type 0 where
  pub used : H → ℕ → Bool
  pub left : H → ℕ
  pub largest : ℕ
  pub node_room : 192 ≤ largest
  pub nonnull : (n : ℕ) (h : H) → 0 < n → n ≤ largest → 0 < left h → (kmalloc n h).1 ≢ 0
  pub fresh : (n : ℕ) (h : H) → 0 < n → n ≤ largest → 0 < left h → used h (kmalloc n h).1 ≡ false
  pub taken :
      (n : ℕ) (h : H) (j : ℕ)
      → 0 < n
      → n ≤ largest
      → 0 < left h
      → used (kmalloc n h).0 j ≡ (if j == (kmalloc n h).1 then true else used h j)
  pub fewer : (n : ℕ) (h : H) → 0 < n → n ≤ largest → 0 < left h → left h ≤ left (kmalloc n h).0 + 1
  pub freed :
      (a : ℕ) (h : H) (j : ℕ)
      → used h a ≡ true
      → used (kfree a h) j ≡ (if j == a then false else used h j)
  pub kept : (a : ℕ) (h : H) → used h a ≡ true → left h ≤ left (kfree a h)

-- The children linked from `p` on.
abbrev pub Chain : (ℕ → TmpfsNode) → ℕ → List ℕ → Type 0
Chain internal p [] = p ≡ 0
Chain internal p (k ∷ ks) = (p ≡ k) × (k ≢ 0) × Chain internal (internal k).next ks

abbrev pub NodeSet : Type 0
NodeSet = ℕ → Bool

abbrev pub Kids : Type 0
Kids = ℕ → List ℕ

module _ {H : Type 0} {kmalloc : ℕ → H → H × ℕ} {kfree : ℕ → H → H}
    (a : Allocator H kmalloc kfree) where
  -- The node `v` of the virtual file system stands for the node `d` of tmpfs.
  pub record Mirrors (is_node : NodeSet) (s : Files H) (v d : ℕ) : Type 0 where
    pub some_vnode : v ≢ 0
    pub in_use : a.used s.heap v ≡ true
    pub no_node : is_node v ≡ false
    pub device : (s.nodes v).device ≡ d
    pub same_flags : (s.nodes v).flags ≡ (s.internal d).flags
    pub same_size : (s.nodes v).size ≡ (s.internal d).size
    pub can_read : (s.nodes v).read ≡ some tmpfs
    pub can_find : (s.nodes v).finddir ≡ some tmpfs

  pub record IsNode (is_node : NodeSet) (kids : Kids) (s : Files H) (d : ℕ) : Type 0 where
    pub some_node : d ≢ 0
    pub in_use : a.used s.heap d ≡ true
    pub kind : ((s.internal d).flags ≡ vfs_file) ⊎ ((s.internal d).flags ≡ vfs_directory)
    pub linked : Chain s.internal (s.internal d).children (kids d)
    pub below : All (λ k. is_node k ≡ true) (kids d)

  pub record IsTree (is_node : NodeSet) (kids : Kids) (s : Files H) : Type 0 where
    pub nodes : (d : ℕ) → is_node d ≡ true → IsNode is_node kids s d
    pub root : is_node s.root_internal ≡ true
    pub root_dir : (s.internal s.root_internal).flags ≡ vfs_directory
    pub mount : Mirrors is_node s s.vfs_root s.root_internal

-- The first child of that name, or 0.
unfoldable pub child : (ℕ → TmpfsNode) → List ℕ → List ℕ → ℕ
child internal [] name = 0
child internal (k ∷ ks) name =
    let rest = child internal ks name in if same_name (internal k).name name then k else rest

-- Where a path leads: to a node, nowhere, or through the file `d`.
pub data Outcome : Type 0 where
  found : ℕ → Outcome
  missing : Outcome
  through : ℕ → Outcome

unfoldable pub resolve : (ℕ → TmpfsNode) → Kids → ℕ → List (List ℕ) → Outcome
unfolding child
resolve internal kids d [] = found d
resolve internal kids d (n ∷ ns) =
    let c = child internal (kids d) n in
    let below = resolve internal kids c ns in
    if (internal d).flags == vfs_directory then if c == 0 then missing else below else through d
