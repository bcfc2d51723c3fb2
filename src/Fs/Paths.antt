-- ===== src/Fs/Paths.antt =====
-- Paths made of names, and how kernel/src/fs/vfs.c and tmpfs.c cut them.
use mathlib.Core.List.{append-nil, append_assoc}
use ded_os.Base.{
  ℕ, ◌+◌, ◌≤◌, ◌<◌, ◌≡◌, refl, ◌≢◌, sym, ◌∙◌, ap, true, none, some, List, [], ◌∷◌, ◌++◌, arith, All,
  ltb, ==-ne, if_true, if_false, length, length-append,
}
use ded_os.Fs.Vfs.{slash}
use ded_os.Fs.Tmpfs.{split_last}
use ded_os.Fs.Names.{IsText, put_name, components, components-slash, components_char, grow}

-- A name that fits a node: 1 to 127 characters, no slash.
pub record IsName (n : List ℕ) : Type 0 where
  pub begun : 0 < length n
  pub short : length n ≤ 127
  pub plain : All (λ c. c ≢ slash) n
  pub text : IsText n

-- `/` before each name.
unfoldable pub path_of : List (List ℕ) → List ℕ
path_of [] = []
path_of (n ∷ ns) = slash ∷ (n ++ path_of ns)

grow_room : (name : List ℕ) (c : ℕ) → length name < 127 → grow name c ≡ name ++ (c ∷ [])
grow_room name c h = if_true _ _ _ (lt_true (length name) 127 h)
  where
    lt_true : (a b : ℕ) → a < b → ltb a b ≡ true
    lt_true a b h = ground arith

put_name_some : (n : List ℕ) (ns : List (List ℕ)) → 0 < length n → put_name n ns ≡ n ∷ ns
unfolding put_name
put_name_some [] ns h = absurd (omega arith)
put_name_some (c ∷ cs) ns h = refl

components_begun :
    (acc n : List ℕ) (ns : List (List ℕ))
    → All (λ c. c ≢ slash) n
    → length acc + length n ≤ 127
    → components acc (n ++ path_of ns) ≡ put_name (acc ++ n) (components [] (path_of ns))
components_begun acc [] [] plain h =
    unfold components path_of put_name in ap (λ l. put_name l []) (sym (append-nil acc))
components_begun acc [] (m ∷ ms) plain h =
    unfold path_of in
    (components-slash acc (m ++ path_of ms) slash refl
      ∙ ap (put_name acc)
          (sym (components-slash [] (m ++ path_of ms) slash refl ∙ unfold put_name in refl))
      ∙ ap (λ l. put_name l (components [] (slash ∷ (m ++ path_of ms)))) (sym (append-nil acc)))
components_begun acc (c ∷ cs) ns (ne, plain) h =
    components_char acc (cs ++ path_of ns) c (==-ne c slash ne)
    ∙ ap (λ l. components l (cs ++ path_of ns)) (grow_room acc c (omega arith))
    ∙ components_begun (acc ++ (c ∷ [])) cs ns plain (omega (arith, length-append acc (c ∷ [])))
    ∙ ap (λ l. put_name l (components [] (path_of ns))) (append_assoc acc (c ∷ []) cs)

-- The names of a path that is made of names are those names.
pub components-path_of : (ns : List (List ℕ)) → All IsName ns → components [] (path_of ns) ≡ ns
unfolding path_of put_name
components-path_of [] ok = unfold components in refl
components-path_of (n ∷ ns) (is, ok) =
    components-slash [] (n ++ path_of ns) slash refl
    ∙ components_begun [] n ns is.plain (omega (arith, is.short))
    ∙ put_name_some n (components [] (path_of ns)) is.begun
    ∙ ap (λ l. n ∷ l) (components-path_of ns ok)

IsText-append : (xs ys : List ℕ) → IsText xs → IsText ys → IsText (xs ++ ys)
IsText-append [] ys p q = q
IsText-append (x ∷ xs) ys (ne, p) q = (ne, IsText-append xs ys p q)

pub path_of-IsText : (ns : List (List ℕ)) → All IsName ns → IsText (path_of ns)
unfolding path_of
path_of-IsText [] ok = tt
path_of-IsText (n ∷ ns) (is, ok) =
    ((λ e. omega arith), IsText-append n (path_of ns) is.text (path_of-IsText ns ok))

split_plain : (n : List ℕ) → All (λ c. c ≢ slash) n → split_last n ≡ none
unfolding split_last
split_plain [] plain = refl
split_plain (c ∷ cs) (ne, plain) =
    rw (split_plain cs plain, split_last) (if_false _ _ _ (==-ne c slash ne))

split_some :
    (c : ℕ) (cs : List ℕ) {dir name : List ℕ}
    → split_last cs ≡ some (dir, name)
    → split_last (c ∷ cs) ≡ some (c ∷ dir, name)
unfolding split_last
split_some c cs e = rw (e, split_last) refl

split_behind :
    (xs cs : List ℕ) {dir name : List ℕ}
    → split_last cs ≡ some (dir, name)
    → split_last (xs ++ cs) ≡ some (xs ++ dir, name)
split_behind [] cs e = e
split_behind (x ∷ xs) cs e = split_some x (xs ++ cs) (split_behind xs cs e)

-- The last name of a path is what stands behind its last slash, and the other names are what is before.
pub split_last-path_of :
    (ns : List (List ℕ)) (n : List ℕ)
    → IsName n
    → split_last (path_of (ns ++ (n ∷ []))) ≡ some (path_of ns, n)
unfolding path_of
split_last-path_of [] n is =
    ap (λ l. split_last (slash ∷ l)) (append-nil n)
    ∙ unfold split_last in rw (split_plain n is.plain, split_last) refl
split_last-path_of (m ∷ ms) n is =
    split_behind (slash ∷ m) (path_of (ms ++ (n ∷ []))) (split_last-path_of ms n is)
