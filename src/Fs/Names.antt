-- ===== src/Fs/Names.antt =====
-- A path as its names, for kernel/src/fs/vfs.c: what a scan over it should find.
use ded_os.Base.{
  ℕ, ◌≤◌, ◌≡◌, refl, ◌≢◌, sym, ◌∙◌, ap, inl, inr, true, false, List, [], ◌∷◌, ◌++◌, arith, All, ltb,
  ◌==◌, Bool-cases, if◌then◌else◌, if_true, length,
}
use ded_os.Fs.Vfs.{slash, char_at}

-- One more character of a name, if there is room.
abbrev pub grow : List ℕ → ℕ → List ℕ
grow name c = if ltb (length name) 127 then name ++ (c ∷ []) else name

-- The name that goes on in `rest`, and what is left behind it.
unfoldable pub word : List ℕ → List ℕ → List ℕ × List ℕ
word name [] = (name, [])
word name (c ∷ cs) = elim (c == slash) [ true ↦ (name, c ∷ cs) | false ↦ word (grow name c) cs ]

unfoldable pub drop_slash : List ℕ → List ℕ
drop_slash [] = []
drop_slash (c ∷ cs) = if c == slash then cs else c ∷ cs

unfoldable pub put_name : List ℕ → List (List ℕ) → List (List ℕ)
put_name [] names = names
put_name (c ∷ cs) names = (c ∷ cs) ∷ names

-- The names between the slashes, where none is empty; the first one begins with `name`.
unfoldable pub components : List ℕ → List ℕ → List (List ℕ)
unfolding put_name
components name [] = put_name name []
components name (c ∷ cs) = elim (c == slash) [
  | true ↦ put_name name (components [] cs)
  | false ↦ components (grow name c) cs
]

abbrev pub IsText : List ℕ → Type 0
IsText cs = All (λ c. c ≢ 0) cs

pub char_at-append : (pre rest : List ℕ) → char_at (pre ++ rest) (length pre) ≡ char_at rest 0
char_at-append [] rest = refl
char_at-append (c ∷ pre) rest = char_at-append pre rest

pub word-slash :
    (name cs : List ℕ) (c : ℕ) → (c == slash) ≡ true → word name (c ∷ cs) ≡ (name, c ∷ cs)
unfolding word
word-slash name cs c e = rw (e, word) refl

pub word_char :
    (name cs : List ℕ) (c : ℕ) → (c == slash) ≡ false → word name (c ∷ cs) ≡ word (grow name c) cs
unfolding word
word_char name cs c e = rw (e, word) refl

pub components-slash :
    (name cs : List ℕ) (c : ℕ)
    → (c == slash) ≡ true
    → components name (c ∷ cs) ≡ put_name name (components [] cs)
unfolding components
components-slash name cs c e = rw (e, components) refl

pub components_char :
    (name cs : List ℕ) (c : ℕ)
    → (c == slash) ≡ false
    → components name (c ∷ cs) ≡ components (grow name c) cs
unfolding components
components_char name cs c e = rw (e, components) refl

pub components-word :
    (name rest : List ℕ)
    → components name rest
      ≡ put_name (word name rest).0 (components [] (drop_slash (word name rest).1))
unfolding drop_slash
components-word name [] = unfold components word in refl
components-word name (c ∷ cs) = elim (Bool-cases (c == slash)) [
  | inl yes_slash ↦
      components-slash name cs c yes_slash
      ∙ ap (λ l. put_name name (components [] l)) (sym (if_true _ cs (c ∷ cs) yes_slash))
      ∙ ap (λ (w : List ℕ × List ℕ). put_name w.0 (components [] (drop_slash w.1)))
          (sym (word-slash name cs c yes_slash))
  | inr no_slash ↦
      components_char name cs c no_slash
      ∙ components-word (grow name c) cs
      ∙ ap (λ (w : List ℕ × List ℕ). put_name w.0 (components [] (drop_slash w.1)))
          (sym (word_char name cs c no_slash))
]

pub length-word : (name rest : List ℕ) → length (word name rest).1 ≤ length rest
length-word name [] = unfold word in omega arith
length-word name (c ∷ cs) = elim (Bool-cases (c == slash)) [
  | inl yes_slash ↦ rw (word-slash name cs c yes_slash) (omega arith)
  | inr no_slash ↦ rw (word_char name cs c no_slash) (omega (arith, length-word (grow name c) cs))
]

pub word-IsText : (name rest : List ℕ) → IsText rest → IsText (word name rest).1
word-IsText name [] t = unfold word in tt
word-IsText name (c ∷ cs) (ne, t) = elim (Bool-cases (c == slash)) [
  | inl yes_slash ↦ rw (word-slash name cs c yes_slash) (ne, t)
  | inr no_slash ↦ rw (word_char name cs c no_slash) (word-IsText (grow name c) cs t)
]
