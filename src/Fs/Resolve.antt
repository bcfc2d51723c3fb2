-- ===== src/Fs/Resolve.antt =====
-- `vfs_find_path` of kernel/src/fs/vfs.c over tmpfs: it goes where the names of the path lead, and
-- which nodes it leaves open.
use mathlib.Core.Path.{subst, fun_ext}
use ded_os.Base.{
  ℕ, zero, suc, ◌+◌, ◌≤◌, ◌<◌, ◌≡◌, refl, ◌≢◌, sym, ◌∙◌, ap, ◌⊎◌, inl, inr, Bool, true, false, some,
  List, [], ◌∷◌, ◌++◌, arith, ◌==◌, ==_iff, ==-ne, Bool-cases, if◌then◌else◌, if_true, if_false,
  length,
}
use ded_os.Fs.{Files, is_directory, vfs_file, vfs_directory}
use ded_os.Fs.Dir.{tmpfs_create_vnode}
use ded_os.Fs.Vfs.{slash, char_at, scan_name, skip_slash, vfs_close, finddir, find_loop}
use ded_os.Fs.Names.{
  IsText, word, drop_slash, put_name, components, components-word, char_at-append, word-slash,
  word-IsText,
}
use ded_os.Fs.Scan.{scan_advance, left_shorter, drop_slash-IsText, word-nonempty}
use ded_os.Fs.Inv.{
  Allocator, NodeSet, Kids, Mirrors, IsTree, child, Outcome, missing, through, resolve,
}
use ded_os.Fs.Lookup.{child-node, finddir-child, tmpfs_create_vnode-Opened}
use ded_os.Fs.Open.{
  without, vfs_close-left, vfs_close-internal, vfs_close-root, vfs_close-vroot, open_without,
  Walked,
}
use ded_os.Fs.Close.{clash, close-IsTree, close-IsTree_missing}
use ded_os.Fs.Rounds.{
  find_loop_end, find_loop_skip, find_loop_blocked, find_loop_missing, find_loop_down,
}

flags_directory :
    (fl : ℕ) → (fl ≡ vfs_file) ⊎ (fl ≡ vfs_directory) → is_directory fl ≡ (fl == vfs_directory)
flags_directory fl (inl e) = rw e refl
flags_directory fl (inr e) = rw e refl

module _ {H : Type 0} {kmalloc : ℕ → H → H × ℕ} {kfree : ℕ → H → H} (a : Allocator H kmalloc kfree)
    (is_node : NodeSet) (kids : Kids) where
  -- The loop ends, where the rest of the path leads from `d`, with a request at most for each character.
  abbrev pub Ends : ℕ → List ℕ → List ℕ → ℕ → ℕ → Files H → Type 0
  Ends fuel pre rest v d s =
      (s' : Files H) × (u : ℕ) × (find_loop kmalloc kfree fuel (pre ++ rest) (length pre) v s
        ≡ some (s', u))
      × Walked a is_node kids (resolve s.internal kids d (components [] rest)) (without a s v) s s'
          u
      × (a.left s.heap ≤ a.left s'.heap + length rest)

  -- One round at a path that goes on, where `again` is the loop behind it.
  module _ (fuel width : ℕ) (pre : List ℕ) (c : ℕ) (cs : List ℕ)
      (room : (e : ℕ) → length (kids e) ≤ width) (text : IsText (c ∷ cs))
      (small : length (pre ++ (c ∷ cs)) < 256) (enough : length (c ∷ cs) + width < suc fuel) where
    abbrev left : List ℕ
    left = drop_slash (word [] (c ∷ cs)).1

    abbrev Again : List ℕ → Type 0
    Again pre' =
        (v d : ℕ) (s : Files H)
        → IsTree a is_node kids s
        → Mirrors a is_node s v d
        → is_node d ≡ true
        → length left ≤ a.left s.heap
        → Ends fuel pre' left v d s

    module _ (cursor : ℕ) (pre' : List ℕ)
        (scans : scan_name (suc fuel) (pre ++ (c ∷ cs)) (length pre) []
          ≡ some (cursor, (word [] (c ∷ cs)).0))
        (skips : skip_slash (pre ++ (c ∷ cs)) cursor ≡ length pre')
        (same : pre ++ (c ∷ cs) ≡ pre' ++ left) (again : Again pre') {s : Files H} (v d : ℕ)
        (t : IsTree a is_node kids s) (m : Mirrors a is_node s v d) (node : is_node d ≡ true)
        (blocks : length (c ∷ cs) ≤ a.left s.heap) where
      more : char_at (pre ++ (c ∷ cs)) (length pre) ≢ 0
      more e = text.0 (sym (char_at-append pre (c ∷ cs)) ∙ e)

      moved :
          (u : ℕ) (s : Files H)
          → find_loop kmalloc kfree fuel (pre ++ (c ∷ cs)) (skip_slash (pre ++ (c ∷ cs)) cursor) u s
            ≡ find_loop kmalloc kfree fuel (pre' ++ left) (length pre') u s
      moved u s =
          ap (λ k. find_loop kmalloc kfree fuel (pre ++ (c ∷ cs)) k u s) skips
          ∙ ap (λ p. find_loop kmalloc kfree fuel p (length pre') u s) same

      at_slash : (c == slash) ≡ true → Ends (suc fuel) pre (c ∷ cs) v d s
      at_slash yes_slash =
          let e = ap (λ (w : List ℕ × List ℕ). w.0) (word-slash [] cs c yes_slash) in
          let (s', u, runs, walked, spent) =
            again v d s t m node (omega (arith, left_shorter c cs)) in
          let names : components [] (c ∷ cs) ≡ components [] left =
            components-word [] (c ∷ cs)
            ∙ ap (λ n. put_name n (components [] left)) e
            ∙ unfold put_name in refl in
          (
            s',
            u,
            find_loop_skip kmalloc kfree fuel (pre ++ (c ∷ cs)) (length pre) v s more cursor
                  (scans ∙ ap (λ n. some (cursor, n)) e)
                ∙ moved v s
                ∙ runs,
            subst
                (λ ns. Walked a is_node kids (resolve s.internal kids d ns) (without a s v) s s' u)
                (sym names) walked,
            omega (arith, spent, left_shorter c cs),
          )

      module _ (x : ℕ) (xs : List ℕ) (name : (word [] (c ∷ cs)).0 ≡ x ∷ xs) where
        scanned : scan_name (suc fuel) (pre ++ (c ∷ cs)) (length pre) [] ≡ some (cursor, x ∷ xs)
        scanned = scans ∙ ap (λ n. some (cursor, n)) name

        names : components [] (c ∷ cs) ≡ (x ∷ xs) ∷ components [] left
        unfolding put_name
        names = components-word [] (c ∷ cs) ∙ ap (λ n. put_name n (components [] left)) name

        -- Where the path leads, given what the next name is.
        lead :
            (o : Outcome) {s' : Files H} {u : ℕ}
            → resolve s.internal kids d ((x ∷ xs) ∷ components [] left) ≡ o
            → Walked a is_node kids o (without a s v) s s' u
            → Walked a is_node kids
                (resolve s.internal kids d (components [] (c ∷ cs)))
                (without a s v)
                s
                s'
                u
        lead o {s'} {u} e w =
            subst (λ o. Walked a is_node kids o (without a s v) s s' u)
              (sym (ap (resolve s.internal kids d) names ∙ e)) w

        at_file : (s.internal d).flags ≡ vfs_file → Ends (suc fuel) pre (c ∷ cs) v d s
        unfolding resolve
        at_file file = (
          s,
          0,
          find_loop_blocked kmalloc kfree fuel (pre ++ (c ∷ cs)) (length pre) v s more cursor x xs
              scanned (ap is_directory (m.same_flags ∙ file)),
          lead (through d) (if_false _ _ _ (ap (λ f. f == vfs_directory) file)) (record {
            returns = (
              refl,
              v,
              record { mirrors = m; only = λ j. open_without a s v j m.some_vnode m.in_use },
            );
            internal = refl;
            root = refl;
            vroot = refl;
            tree = t;
          }),
          omega arith,
        )

        module _ (dir : (s.internal d).flags ≡ vfs_directory) where
          next_child : ℕ
          next_child = child s.internal (kids d) (x ∷ xs)

          finds :
              finddir kmalloc kfree (suc fuel) v (x ∷ xs) s
              ≡ some (tmpfs_create_vnode kmalloc next_child s)
          unfolding next_child
          finds =
              finddir-child a t (suc fuel) v d (x ∷ xs) m node dir (omega (arith, room d, enough))

          is_dir : is_directory (s.nodes v).flags ≡ true
          is_dir = ap is_directory (m.same_flags ∙ dir)

          in_directory :
              (o : Outcome)
              → (if next_child == 0
                  then missing
                  else resolve s.internal kids next_child (components [] left))
                ≡ o
              → resolve s.internal kids d ((x ∷ xs) ∷ components [] left) ≡ o
          unfolding resolve next_child
          in_directory o e = if_true _ _ _ (ap (λ f. f == vfs_directory) dir) ∙ e

          at_missing : next_child ≡ 0 → Ends (suc fuel) pre (c ∷ cs) v d s
          at_missing none_there =
              let created : tmpfs_create_vnode kmalloc next_child s ≡ (s, 0) =
                ap (λ k. tmpfs_create_vnode kmalloc k s) none_there
                ∙ unfold tmpfs_create_vnode in refl in
              (
                vfs_close kfree v s,
                0,
                find_loop_missing kmalloc kfree fuel (pre ++ (c ∷ cs)) (length pre) v s more cursor
                    x xs scanned is_dir s 0 (finds ∙ ap some created) refl,
                lead missing
                    (in_directory missing (if_true _ _ _ ((==_iff next_child 0).1 none_there)))
                    (record {
                      returns = (refl, λ j. refl);
                      internal = vfs_close-internal a s v;
                      root = vfs_close-root a s v;
                      vroot = vfs_close-vroot a s v;
                      tree = close-IsTree_missing a v d t m;
                    }),
                omega (arith, vfs_close-left a s v m.in_use),
              )

          at_child : next_child ≢ 0 → Ends (suc fuel) pre (c ∷ cs) v d s
          at_child there =
              let s1 : Files H = (tmpfs_create_vnode kmalloc next_child s).0 in
              let next = (tmpfs_create_vnode kmalloc next_child s).1 in
              let child_node : is_node next_child ≡ true =
                unfold next_child in
                child-node is_node s.internal (kids d) (x ∷ xs) (t.nodes d node).below
                  (unfold next_child in there) in
              let o = tmpfs_create_vnode-Opened a t next_child child_node (omega arith) in
              let (t2, m2, same2) = close-IsTree a t d m o in
              let s2 : Files H = vfs_close kfree v s1 in
              let internal2 : s2.internal ≡ s.internal = vfs_close-internal a s1 v ∙ o.internal in
              let v_used : a.used s1.heap v ≡ true = o.now_used v ∙ either (v == next) m.in_use in
              let kept = vfs_close-left a s1 v v_used in
              let (s', u, runs, w, spent) =
                again next next_child s2 t2 m2 child_node
                  (omega (arith, kept, o.fewer, left_shorter c cs)) in
              (
                s',
                u,
                find_loop_down kmalloc kfree fuel (pre ++ (c ∷ cs)) (length pre) v s more cursor x
                      xs scanned is_dir s1 next finds o.mirrors.some_vnode
                    ∙ moved next s2
                    ∙ runs,
                lead (resolve s.internal kids next_child (components [] left))
                    (in_directory _ (if_false _ _ _ (==-ne next_child 0 there)))
                    (subst
                      (λ b.
                        Walked a is_node kids
                          (resolve s.internal kids next_child (components [] left)) b s s' u)
                      (fun_ext same2)
                      (subst
                        (λ i.
                          Walked a is_node kids (resolve i kids next_child (components [] left))
                            (without a s2 next) s s' u)
                        internal2
                        (record {
                          returns = w.returns;
                          internal = w.internal ∙ internal2;
                          root = w.root ∙ vfs_close-root a s1 v ∙ o.root;
                          vroot = w.vroot ∙ vfs_close-vroot a s1 v ∙ o.vroot;
                          tree = w.tree;
                        }))),
                omega (arith, spent, kept, o.fewer, left_shorter c cs),
              )
            where
              either : (b : Bool) {x : Bool} → x ≡ true → (if b then true else x) ≡ true
              either true e = refl
              either false e = e

        at_name : Ends (suc fuel) pre (c ∷ cs) v d s
        at_name = by_kind (t.nodes d node).kind
          where
            by_child :
                (dir : (s.internal d).flags ≡ vfs_directory)
                → ((next_child dir == 0) ≡ true) ⊎ ((next_child dir == 0) ≡ false)
                → Ends (suc fuel) pre (c ∷ cs) v d s
            by_child dir (inl e) = at_missing dir ((==_iff (next_child dir) 0).0 e)
            by_child dir (inr e) =
                at_child dir (λ z. clash (next_child dir == 0) ((==_iff (next_child dir) 0).1 z) e)

            by_kind :
                ((s.internal d).flags ≡ vfs_file) ⊎ ((s.internal d).flags ≡ vfs_directory)
                → Ends (suc fuel) pre (c ∷ cs) v d s
            by_kind (inl file) = at_file file
            by_kind (inr dir) = by_child dir (Bool-cases (next_child dir == 0))

      one_round : Ends (suc fuel) pre (c ∷ cs) v d s
      one_round = by_char (Bool-cases (c == slash))
        where
          by_char :
              ((c == slash) ≡ true) ⊎ ((c == slash) ≡ false) → Ends (suc fuel) pre (c ∷ cs) v d s
          by_char (inl e) = at_slash e
          by_char (inr e) = let (x, xs, name, shorter) = word-nonempty c cs e in at_name x xs name

  -- The loop from the node `v`, which stands for `d`, with `rest` left of the path.
  pub find_loop-Walked :
      (fuel width : ℕ) (pre rest : List ℕ) (v d : ℕ) {s : Files H}
      → IsTree a is_node kids s
      → Mirrors a is_node s v d
      → is_node d ≡ true
      → ((e : ℕ) → length (kids e) ≤ width)
      → IsText rest
      → length (pre ++ rest) < 256
      → length rest + width < fuel
      → length rest ≤ a.left s.heap
      → Ends fuel pre rest v d s
  find_loop-Walked zero width pre rest v d {s} t m node room text small enough blocks =
      absurd (omega arith)
  find_loop-Walked (suc fuel) width pre [] v d {s} t m node room text small enough blocks = (
    s,
    v,
    find_loop_end kmalloc kfree fuel (pre ++ []) (length pre) v s (char_at-append pre []),
    record {
      returns =
          unfold components put_name resolve in
          record { mirrors = m; only = λ j. open_without a s v j m.some_vnode m.in_use };
      internal = refl;
      root = refl;
      vroot = refl;
      tree = t;
    },
    omega arith,
  )
  find_loop-Walked (suc fuel) width pre (c ∷ cs) v d {s} t m node room text small enough blocks =
      let (cursor, pre', scans, skips, same) =
        scan_advance (suc fuel) pre (c ∷ cs) text (omega arith) small in
      one_round fuel width pre c cs room text small enough cursor pre' scans skips same
        (λ u e s t m node blocks.
          find_loop-Walked fuel width pre' (drop_slash (word [] (c ∷ cs)).1) u e {s = s} t m node
            room (drop_slash-IsText (word [] (c ∷ cs)).1 (word-IsText [] (c ∷ cs) text))
            (subst (λ p. length p < 256) same small) (omega (arith, left_shorter c cs)) blocks)
        v d t m node blocks
