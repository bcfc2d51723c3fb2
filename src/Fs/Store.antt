-- ===== src/Fs/Store.antt =====
-- Storing a file under a path and reading it back, through kernel/src/fs/tmpfs.c and vfs.c.
use ded_os.Base.{
  ℕ, zero, suc, ◌+◌, ◌-◌, ◌^◌, ◌≤◌, ◌<◌, ◌≡◌, refl, ◌≢◌, sym, ◌∙◌, ap, inl, inr, Bool, true, false,
  ◌&&◌, some, List, [], ◌∷◌, ◌++◌, arith, All, ltb, leb, ◌==◌, ==_iff, ==-ne, ==_self, Bool-cases,
  if◌then◌else◌, if_true, if_false, length,
}
use ded_os.Base.Word.{add64}
use ded_os.Base.Memory.{update_self}
use ded_os.Fs.{Files, tmpfs, vfs_directory}
use ded_os.Fs.Dir.{same_name, slice, tmpfs_read}
use ded_os.Fs.Vfs.{vfs_read}
use ded_os.Fs.Inv.{
  Allocator, NodeSet, Kids, IsTree, child, Outcome, found, missing, through, resolve,
}
use ded_os.Fs.Place.{with_child}
use ded_os.Fs.Lookup.{child-node}
use ded_os.Fs.Attach.{Created}

-- What lies between two offsets of the contents, measured.
length-slice :
    (offset n : ℕ) (bs : List ℕ)
    → length (slice offset n bs) ≡ (
        if leb (length bs) offset
        then 0
        else if ltb (length bs) (offset + n)
        then length bs - offset
        else n)
unfolding slice
length-slice offset n [] = ground arith
length-slice zero zero (b ∷ bs) = ground arith
length-slice zero (suc n) (b ∷ bs) = ground (arith, length-slice zero n bs)
length-slice (suc offset) n (b ∷ bs) = ground (arith, length-slice offset n bs)

slice_end : (offset n : ℕ) (bs : List ℕ) → length bs ≤ offset → slice offset n bs ≡ []
unfolding slice
slice_end offset n [] h = refl
slice_end zero n (b ∷ bs) h = absurd (omega arith)
slice_end (suc offset) n (b ∷ bs) h = slice_end offset n bs (omega arith)

slice_clip :
    (offset n : ℕ) (bs : List ℕ)
    → length bs < offset + n
    → slice offset (length bs - offset) bs ≡ slice offset n bs
unfolding slice
slice_clip offset n [] h = refl
slice_clip zero zero (b ∷ bs) h = absurd (omega arith)
slice_clip zero (suc n) (b ∷ bs) h =
    ap (λ k. slice zero k (b ∷ bs)) {y = suc (length bs - 0)} (omega arith)
    ∙ ap (λ l. b ∷ l) (slice_clip zero n bs (omega arith))
slice_clip (suc offset) n (b ∷ bs) h =
    ap (λ k. slice offset k bs) {x = suc (length bs) - suc offset} {y = length bs - offset}
      (omega arith)
    ∙ slice_clip offset n bs (omega arith)

-- The bytes that `tmpfs_read` copies, where the sum of the offset and the count is `top`.
read_bytes : ℕ → ℕ → ℕ → ℕ → List ℕ → ℕ × List ℕ
read_bytes size offset count top bytes =
    let size' = if ltb size top then size - offset else count in
    if leb size offset then (0, []) else (size', slice offset size' bytes)

read_bytes-slice :
    (offset count : ℕ) (bs : List ℕ)
    → read_bytes (length bs) offset count (offset + count) bs
      ≡ (length (slice offset count bs), slice offset count bs)
unfolding read_bytes
read_bytes-slice offset count bs = elim (Bool-cases (leb (length bs) offset)) [
  | inl past ↦
      if_true _ _ _ past
      ∙ ap (λ (l : List ℕ). (length l, l))
          (sym (slice_end offset count bs (leb_le (length bs) offset past)))
  | inr before ↦ if_false _ _ _ before ∙ elim (Bool-cases (ltb (length bs) (offset + count))) [
    | inl clip ↦
        ap (λ k. (k, slice offset k bs)) (if_true _ (length bs - offset) count clip)
        ∙ ap (λ l. (length bs - offset, l))
            (slice_clip offset count bs (ltb_lt (length bs) (offset + count) clip))
        ∙ ap (λ k. (k, slice offset count bs))
            (sym (length-slice offset count bs ∙ if_false _ _ _ before ∙ if_true _ _ _ clip))
    | inr whole ↦
        ap (λ k. (k, slice offset k bs)) (if_false _ (length bs - offset) count whole)
        ∙ ap (λ k. (k, slice offset count bs))
            (sym (length-slice offset count bs ∙ if_false _ _ _ before ∙ if_false _ _ _ whole))
  ]
]
  where
    leb_le : (a b : ℕ) → leb a b ≡ true → a ≤ b
    leb_le a b h = ground arith

    ltb_lt : (a b : ℕ) → ltb a b ≡ true → a < b
    ltb_lt a b h = ground arith

-- Of a file whose size is the length of its contents, `vfs_read` returns the bytes from `offset` on, as
-- far as the file goes and at most `count`, and their number; when `offset + count` does not wrap.
pub vfs_read-slice :
    {H : Type 0} (s : Files H) (node d offset count : ℕ)
    → (s.nodes node).read ≡ some tmpfs
    → (s.nodes node).device ≡ d
    → (s.internal d).size ≡ length (s.internal d).contents
    → offset + count < 2 ^ 64
    → vfs_read s node offset count ≡ (
      length (slice offset count (s.internal d).contents),
      slice offset count (s.internal d).contents,
    )
unfolding vfs_read tmpfs_read read_bytes
vfs_read-slice s node d offset count can dev sized small =
    rw (can, vfs_read)
      (ap
          (λ e.
            read_bytes (s.internal e).size offset count (add64 offset count)
              (s.internal e).contents)
          dev
        ∙ ap (λ top. read_bytes (s.internal d).size offset count top (s.internal d).contents)
            {x = add64 offset count} {y = offset + count} (omega arith)
        ∙ ap (λ n. read_bytes n offset count (offset + count) (s.internal d).contents) sized
        ∙ read_bytes-slice offset count (s.internal d).contents)

same_name_refl : (n : List ℕ) → same_name n n ≡ true
unfolding same_name
same_name_refl [] = refl
same_name_refl (c ∷ cs) = ap (λ b. b && same_name cs cs) (==_self c) ∙ same_name_refl cs

-- Where a path led to before a creation below `p`, the same path with the new name leads to the new
-- node after it, if that name is none of those before.
module _ {H : Type 0} {kmalloc : ℕ → H → H × ℕ} {kfree : ℕ → H → H} {a : Allocator H kmalloc kfree}
    {is_node : NodeSet} {kids : Kids} {s s1 : Files H} {p flags size new : ℕ} {name bytes : List ℕ}
    (t : IsTree a is_node kids s) (c : Created a is_node kids p flags size name bytes s s1 new)
    (node : is_node p ≡ true) (dir : (s.internal p).flags ≡ vfs_directory) where
  new_some : new ≢ 0
  new_some = (c.tree.nodes new (update_self is_node new true)).some_node

  pub resolve-new :
      (d : ℕ) (ns : List (List ℕ))
      → is_node d ≡ true
      → resolve s.internal kids d ns ≡ found p
      → All (λ m. same_name name m ≡ false) ns
      → resolve s1.internal (with_child kids p new) d (ns ++ (name ∷ [])) ≡ found new
  unfolding resolve
  resolve-new d [] is e other =
      let at : d ≡ p = found_eq e in
      ap (λ d. resolve s1.internal (with_child kids p new) d (name ∷ [])) at
      ∙ if_true _ _ _ (ap (λ f. f == vfs_directory) (c.kinds p node ∙ dir))
      ∙ ap (λ k. if k == 0 then missing else found k)
          (c.children p name node
            ∙ ap (λ b. if b && same_name name name then new else child s.internal (kids p) name)
                (==_self p)
            ∙ if_true _ _ _ (same_name_refl name))
      ∙ if_false _ _ _ (==-ne new 0 new_some)
    where
      found_eq : found d ≡ found p → d ≡ p
      found_eq e = cc
  resolve-new d (m ∷ ms) is e (ne, other) =
      let (dir_d, e1) = through_dir d e in
      let k = child s.internal (kids d) m in
      let (there, e2) = past_child k e1 in
      if_true _ _ _ (ap (λ f. f == vfs_directory) (c.kinds d is) ∙ dir_d)
      ∙ ap
          (λ k.
            if k == 0
            then missing
            else resolve s1.internal (with_child kids p new) k (ms ++ (name ∷ [])))
          (c.children d m is ∙ if_false _ _ _ (none_same (d == p) ne))
      ∙ if_false _ _ _ there
      ∙ resolve-new k ms
          (child-node is_node s.internal (kids d) m (t.nodes d is).below
            (λ z. clash_zero k z there))
          e2 other
    where
      none_same : (b : Bool) → same_name name m ≡ false → (b && same_name name m) ≡ false
      none_same true e = e
      none_same false e = refl

      clash_zero : (k : ℕ) → k ≡ 0 → (k == 0) ≡ false → ⊥
      clash_zero k z e = cc ((==_iff k 0).1 z)

      through_dir :
          (d : ℕ) {o : Outcome}
          → (if (s.internal d).flags == vfs_directory then o else through d) ≡ found p
          → (((s.internal d).flags == vfs_directory) ≡ true) × (o ≡ found p)
      through_dir d e = ground arith

      past_child :
          (k : ℕ) {o : Outcome}
          → (if k == 0 then missing else o) ≡ found p
          → ((k == 0) ≡ false) × (o ≡ found p)
      past_child k e = ground arith
