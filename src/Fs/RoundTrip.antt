-- ===== src/Fs/RoundTrip.antt =====
-- A file that is stored under a path is found there and reads back, kernel/src/fs/tmpfs.c and vfs.c.
use mathlib.Core.Path.{subst}
use ded_os.Base.{
  ℕ, ◌*◌, ◌+◌, ◌^◌, ◌≤◌, ◌<◌, ◌≡◌, refl, ◌≢◌, sym, ◌∙◌, ap, inl, inr, Bool, true, false, not, ◌&&◌,
  some, List, [], ◌∷◌, ◌++◌, arith, All, ◌==◌, ==-ne, Bool-cases, if◌then◌else◌, if_true, if_false,
  length, length-append,
}
use ded_os.Base.Partial.{◌>>=◌}
use ded_os.Base.Memory.{update}
use ded_os.Fs.{Files, TmpfsNode, is_directory, vfs_file, vfs_directory}
use ded_os.Fs.Dir.{same_name, slice}
use ded_os.Fs.Vfs.{vfs_read, vfs_find_path}
use ded_os.Fs.Tmpfs.{find_parent, create_entry, tmpfs_create_file, tmpfs_add_entry}
use ded_os.Fs.Inv.{Allocator, NodeSet, Kids, Mirrors, IsTree, found, resolve}
use ded_os.Fs.Open.{Open, Walked}
use ded_os.Fs.Find.{vfs_find_path-Walked}
use ded_os.Fs.Paths.{IsName, path_of, components-path_of, path_of-IsText, split_last-path_of}
use ded_os.Fs.Place.{with_node, with_child}
use ded_os.Fs.Attach.{Created}
use ded_os.Fs.Create.{tmpfs_create_file-Created}
use ded_os.Fs.Store.{vfs_read-slice, resolve-new}

module _ {H : Type 0} {kmalloc : ℕ → H → H × ℕ} {kfree : ℕ → H → H} (a : Allocator H kmalloc kfree)
    {is_node : NodeSet} {kids : Kids} {s : Files H} (t : IsTree a is_node kids s) (fuel width : ℕ)
    (room : (d : ℕ) → length (kids d) ≤ width) where
  -- The parent directory, in a state with the same files.
  record ParentAt (dir : List ℕ) (p : ℕ) : Type 0 where
    after : Files H
    finds : find_parent kmalloc kfree fuel dir s ≡ some (after, p)
    internal : after.internal ≡ s.internal
    root : after.root_internal ≡ s.root_internal
    tree : IsTree a is_node kids after
    spent : a.left s.heap ≤ a.left after.heap + length dir

  found_eq : {d e : ℕ} → found d ≡ found e → d ≡ e
  found_eq e = cc

  find_parent-ParentAt :
      (ns : List (List ℕ)) (p : ℕ)
      → All IsName ns
      → resolve s.internal kids s.root_internal ns ≡ found p
      → (s.internal p).flags ≡ vfs_directory
      → length (path_of ns) < 256
      → length (path_of ns) + width < fuel
      → length (path_of ns) ≤ a.left s.heap
      → ParentAt (path_of ns) p
  unfolding find_parent
  find_parent-ParentAt [] p ok e dir small enough blocks =
      let at : found s.root_internal ≡ found p = unfold resolve in e in
      let start : find_parent kmalloc kfree fuel (path_of []) s ≡ some (s, s.root_internal) =
        unfold path_of vfs_find_path in refl in
      record {
        after = s;
        finds = start ∙ ap (λ q. some (s, q)) (found_eq at);
        internal = refl;
        root = refl;
        tree = t;
        spent = omega arith;
      }
  find_parent-ParentAt (n ∷ ns) p ok e dir small enough blocks =
      let (s', v, runs, w, spent) =
        vfs_find_path-Walked a fuel width (path_of (n ∷ ns)) t room (path_of-IsText (n ∷ ns) ok)
          (unfold path_of in λ e. cc e) small enough blocks in
      let lead =
        ap (resolve s.internal kids s.root_internal) (components-path_of (n ∷ ns) ok) ∙ e in
      let open_dir =
        the_open (subst (λ o. Walked a is_node kids o (a.used s.heap) s s' v) lead w).returns in
      let m = open_dir.mirrors in
      let flags = m.same_flags ∙ ap (λ (i : ℕ → TmpfsNode). (i p).flags) w.internal ∙ dir in
      record {
        after = s';
        finds =
            rw (runs, ◌>>=◌)
              (ap (λ p. some (s', p))
                (if_true _ _ _ (
                    ap (λ b. not b && is_directory (s'.nodes v).flags) (==-ne v 0 m.some_vnode)
                    ∙ ap is_directory flags)
                  ∙ m.device));
        internal = w.internal;
        root = w.root;
        tree = w.tree;
        spent = spent;
      }
    where
      the_open :
          {s' : Files H} {v : ℕ}
          → Open a is_node (a.used s.heap) s' v p
          → Open a is_node (a.used s.heap) s' v p
      the_open o = o

  module _ (ns : List (List ℕ)) (name bytes : List ℕ) (p : ℕ) (ok : All IsName ns)
      (is : IsName name) (leads : resolve s.internal kids s.root_internal ns ≡ found p)
      (dir : (s.internal p).flags ≡ vfs_directory) (node : is_node p ≡ true)
      (others : All (λ m. same_name name m ≡ false) ns)
      (small : length (path_of (ns ++ (name ∷ []))) < 256)
      (enough : length (path_of (ns ++ (name ∷ []))) + width + 1 < fuel)
      (fits : length bytes ≤ a.largest)
      (blocks : length (path_of (ns ++ (name ∷ []))) * 2 + 2 ≤ a.left s.heap) where
    path : List ℕ
    path = path_of (ns ++ (name ∷ []))

    shorter : (ns : List (List ℕ)) → length (path_of ns) ≤ length (path_of (ns ++ (name ∷ [])))
    unfolding path_of
    shorter [] = omega arith
    shorter (m ∷ ms) = omega (
      arith,
      shorter ms,
      length-append m (path_of ms),
      length-append m (path_of (ms ++ (name ∷ []))),
    )

    names_ok : (ns : List (List ℕ)) → All IsName ns → All IsName (ns ++ (name ∷ []))
    names_ok [] ok = (is, tt)
    names_ok (m ∷ ms) (i, ok) = (i, names_ok ms ok)

    -- The state after the file is stored, and its node.
    record Stored : Type 0 where
      before : Files H
      after : Files H
      new : ℕ
      stores :
          tmpfs_add_entry kmalloc kfree fuel
            (path_of (ns ++ (name ∷ [])))
            bytes
            (length bytes)
            vfs_file
            s
          ≡ some (after, new)
      same : before.internal ≡ s.internal
      root : before.root_internal ≡ s.root_internal
      tree : IsTree a is_node kids before
      left : length (path_of (ns ++ (name ∷ []))) ≤ a.left after.heap
      created :
          Created a is_node kids p vfs_file
            (length bytes)
            name
            (if length bytes == 0 then [] else bytes)
            before
            after
            new

    stored : Stored
    unfolding tmpfs_add_entry create_entry
    stored =
        let q =
          find_parent-ParentAt ns p ok leads dir (omega (arith, shorter ns))
            (omega (arith, shorter ns)) (omega (arith, shorter ns)) in
        let dir' = ap (λ (i : ℕ → TmpfsNode). (i p).flags) q.internal ∙ dir in
        let c =
          tmpfs_create_file-Created a q.tree p node (omega (arith, shorter ns, q.spent)) dir' name
            bytes (length bytes) fits in
        record {
          before = q.after;
          after = (tmpfs_create_file kmalloc p name bytes (length bytes) q.after).0;
          new = (tmpfs_create_file kmalloc p name bytes (length bytes) q.after).1;
          stores = rw (split_last-path_of ns name is, tmpfs_add_entry) (rw (q.finds, ◌>>=◌) refl);
          same = q.internal;
          root = q.root;
          tree = q.tree;
          left = omega (arith, shorter ns, q.spent, c.spent);
          created = c;
        }

    contents_same : (if length bytes == 0 then [] else bytes) ≡ bytes
    contents_same = by bytes
      where
        by : (bs : List ℕ) → (if length bs == 0 then [] else bs) ≡ bs
        by [] = refl
        by (b ∷ bs) = if_false _ _ _ (==-ne (length (b ∷ bs)) 0 (λ e. omega arith))

    -- In a tree, let names of 1 to 127 characters lead to a directory. A file that is stored there under
    -- one more such name, which none of the names before it is, is found under its path, and reading there
    -- returns its bytes from the offset on, as many as are asked for and there, with their number. For
    -- files of a size that the heap serves, when it is sure to serve two requests for each character of
    -- the path and two more; for paths below 256 characters, with fuel for the path and the entries of a
    -- directory, where offset and count do not overflow.
    pub vfs_read-tmpfs_add_entry :
        (offset count : ℕ)
        → offset + count < 2 ^ 64
        → (s1 : Files H) × (new : ℕ) × (s2 : Files H) × (v : ℕ) × (tmpfs_add_entry kmalloc kfree
              fuel
              (path_of (ns ++ (name ∷ [])))
              bytes
              (length bytes)
              vfs_file
              s
            ≡ some (s1, new))
          × (vfs_find_path kmalloc kfree fuel (path_of (ns ++ (name ∷ []))) s1 ≡ some (s2, v))
          × (v ≢ 0)
          × (vfs_read s2 v offset count
              ≡ (length (slice offset count bytes), slice offset count bytes))
    vfs_read-tmpfs_add_entry offset count top =
        let st = stored in
        let new = st.new in
        let c = st.created in
        let full = ns ++ (name ∷ []) in
        let (s2, v, runs, w, _) =
          vfs_find_path-Walked a fuel (width + 1) (path_of full) c.tree wider
            (path_of-IsText full (names_ok ns ok)) (nonempty ns) small (omega arith) st.left in
        let before_leads : resolve st.before.internal kids st.before.root_internal ns ≡ found p =
          ap (λ r. resolve st.before.internal kids r ns) st.root
          ∙ ap (λ i. resolve i kids s.root_internal ns) st.same
          ∙ leads in
        let dir' = ap (λ (i : ℕ → TmpfsNode). (i p).flags) st.same ∙ dir in
        let leads_new =
          resolve-new st.tree c node dir' st.before.root_internal ns st.tree.root before_leads
            others in
        let lead =
          ap (resolve st.after.internal (with_child kids p new) st.after.root_internal)
            (components-path_of full (names_ok ns ok))
          ∙ ap (λ r. resolve st.after.internal (with_child kids p new) r full) c.root
          ∙ leads_new in
        let m = the_mirror (
          subst
            (λ o.
              Walked a (with_node is_node new) (with_child kids p new) o (a.used st.after.heap)
                st.after s2 v)
            lead w) in
        let filled =
          ap (λ (i : ℕ → TmpfsNode). (i new).contents) w.internal ∙ c.filled ∙ contents_same in
        let sized = ap (λ (i : ℕ → TmpfsNode). (i new).size) w.internal ∙ c.sized in
        (
          st.after,
          new,
          s2,
          v,
          st.stores,
          runs,
          m.some_vnode,
          vfs_read-slice s2 v new offset count m.can_read m.device (sized ∙ sym (ap length filled))
                top
              ∙ ap (λ (b : List ℕ). (length (slice offset count b), slice offset count b)) filled,
        )
      where
        the_mirror :
            {n v : ℕ} {k : NodeSet} {ks : Kids} {b : ℕ → Bool} {s1 s2 : Files H}
            → Walked a k ks (found n) b s1 s2 v
            → Mirrors a k s2 v n
        the_mirror w = w.returns.mirrors

        nonempty : (ns : List (List ℕ)) → path_of (ns ++ (name ∷ [])) ≢ []
        nonempty [] e = unfold path_of in cc e
        nonempty (m ∷ ms) e = unfold path_of in cc e

        wider : (d : ℕ) → length (with_child kids p stored.new d) ≤ width + 1
        wider d = elim (Bool-cases (d == stored.new)) [
          | inl same ↦ rw (at_new d stored.new same) (omega arith)
          | inr ne ↦ elim (Bool-cases (d == p)) [
            | inl par ↦ rw (at_parent d stored.new ne par) (omega (arith, room p))
            | inr other ↦ rw (at_other d stored.new ne other) (omega (arith, room d))
          ]
        ]
          where
            at_new : (d n : ℕ) → (d == n) ≡ true → with_child kids p n d ≡ []
            at_new d n e = unfold update in if_true _ _ _ e

            at_parent :
                (d n : ℕ) → (d == n) ≡ false → (d == p) ≡ true → with_child kids p n d ≡ n ∷ kids p
            at_parent d n e h = unfold update in if_false _ _ _ e ∙ if_true _ _ _ h

            at_other :
                (d n : ℕ) → (d == n) ≡ false → (d == p) ≡ false → with_child kids p n d ≡ kids d
            at_other d n e h = unfold update in if_false _ _ _ e ∙ if_false _ _ _ h
