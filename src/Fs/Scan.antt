-- ===== src/Fs/Scan.antt =====
-- How the scan of kernel/src/fs/vfs.c goes through a path, name by name.
use ded_os.Base.{
  ℕ, zero, suc, ◌+◌, ◌%◌, ◌≤◌, ◌<◌, ◌≡◌, refl, ◌≢◌, sym, ◌∙◌, ap, inl, inr, true, false, ◌||◌, none,
  some, List, [], ◌∷◌, ◌++◌, arith, ltb, ◌==◌, ==-ne, Bool-cases, if_true, if_false, if_both,
  length, length-append,
}
use mathlib.Core.Path.{subst}
use mathlib.Core.List.{append_assoc}
use ded_os.Fs.Vfs.{slash, char_at, scan_name, skip_slash}
use ded_os.Fs.Names.{
  grow, word, drop_slash, IsText, char_at-append, word-slash, word_char, length-word,
}

-- The loop stops at the end of a name.
scan_stop :
    (fuel : ℕ) (path : List ℕ) (cursor : ℕ) (name : List ℕ)
    → ((char_at path cursor == slash) || (char_at path cursor == 0)) ≡ true
    → scan_name (suc fuel) path cursor name ≡ some (cursor, name)
unfolding scan_name
scan_stop fuel path cursor name e = if_true _ _ _ e

scan_on :
    (fuel : ℕ) (path : List ℕ) (cursor : ℕ) (name : List ℕ)
    → ((char_at path cursor == slash) || (char_at path cursor == 0)) ≡ false
    → scan_name (suc fuel) path cursor name
      ≡ scan_name fuel path ((cursor + 1) % 256) (grow name (char_at path cursor))
unfolding scan_name
scan_on fuel path cursor name e = if_false _ _ _ e

-- The cursor as the number of characters before it.
pub scan_name-word :
    (fuel : ℕ) (pre rest name : List ℕ)
    → IsText rest
    → length rest < fuel
    → length (pre ++ rest) < 256
    → (pre' : List ℕ) × (scan_name fuel (pre ++ rest) (length pre) name
        ≡ some (length pre', (word name rest).0))
      × (pre ++ rest ≡ pre' ++ (word name rest).1)
scan_name-word zero pre rest name t h small = absurd (omega arith)
scan_name-word (suc fuel) pre [] name t h small = (
  pre,
  scan_stop fuel (pre ++ []) (length pre) name (rw (char_at-append pre []) refl)
      ∙ unfold word in refl,
  unfold word in refl,
)
scan_name-word (suc fuel) pre (c ∷ cs) name (ne, t) h small =
    let path = pre ++ (c ∷ cs) in
    let at = char_at-append pre (c ∷ cs) in
    elim (Bool-cases (c == slash)) [
      | inl yes_slash ↦
          let w = word-slash name cs c yes_slash in
          (
            pre,
            scan_stop fuel path (length pre) name
                  (ap (λ k. (k == slash) || (k == 0)) at ∙ ap (λ b. b || (c == 0)) yes_slash)
                ∙ ap (λ (w : List ℕ × List ℕ). some (length pre, w.0)) (sym w),
            ap (λ (w : List ℕ × List ℕ). pre ++ w.1) (sym w),
          )
      | inr no_slash ↦
          let w = word_char name cs c no_slash in
          let moved : path ≡ (pre ++ (c ∷ [])) ++ cs = sym (append_assoc pre (c ∷ []) cs) in
          let next : (length pre + 1) % 256 ≡ length (pre ++ (c ∷ [])) =
            omega (arith, length-append pre (c ∷ []), length-append pre (c ∷ cs)) in
          let (pre', runs, same) =
            scan_name-word fuel (pre ++ (c ∷ [])) cs (grow name c) t (omega arith)
              (subst (λ p. length p < 256) moved small) in
          (
            pre',
            scan_on fuel path (length pre) name (
                  ap (λ k. (k == slash) || (k == 0)) at
                  ∙ ap (λ b. b || (c == 0)) no_slash
                  ∙ ==-ne c 0 ne)
                ∙ ap (λ k. scan_name fuel path k (grow name (char_at path (length pre)))) next
                ∙ ap (λ k. scan_name fuel path (length (pre ++ (c ∷ []))) (grow name k)) at
                ∙ ap (λ p. scan_name fuel p (length (pre ++ (c ∷ []))) (grow name c)) moved
                ∙ runs
                ∙ ap (λ (w : List ℕ × List ℕ). some (length pre', w.0)) (sym w),
            moved ∙ same ∙ ap (λ (w : List ℕ × List ℕ). pre' ++ w.1) (sym w),
          )
    ]

pub skip_slash-drop :
    (pre rest : List ℕ)
    → length (pre ++ rest) < 256
    → (pre' : List ℕ) × (skip_slash (pre ++ rest) (length pre) ≡ length pre')
      × (pre ++ rest ≡ pre' ++ drop_slash rest)
unfolding drop_slash
skip_slash-drop pre [] small = (pre, rw (char_at-append pre []) refl, refl)
skip_slash-drop pre (c ∷ cs) small =
    let at = ap (λ k. k == slash) (char_at-append pre (c ∷ cs)) in
    elim (Bool-cases (c == slash)) [
      | inl yes_slash ↦ (
        pre ++ (c ∷ []),
        if_true _ _ _ (at ∙ yes_slash)
            ∙ omega (arith, length-append pre (c ∷ []), length-append pre (c ∷ cs)),
        sym (append_assoc pre (c ∷ []) cs)
            ∙ ap (λ l. (pre ++ (c ∷ [])) ++ l) (sym (if_true _ cs (c ∷ cs) yes_slash)),
      )
      | inr no_slash ↦ (
        pre,
        if_false _ _ _ (at ∙ no_slash),
        ap (λ l. pre ++ l) (sym (if_false _ cs (c ∷ cs) no_slash)),
      )
    ]

-- The cursor has eight bits: when the first 256 characters of a path hold no slash, the copy of a
-- name from any place among them never ends.
pub scan_name-diverges :
    (fuel : ℕ) (path : List ℕ) (cursor : ℕ) (name : List ℕ)
    → ((k : ℕ) → k < 256 → (char_at path k ≢ slash) × (char_at path k ≢ 0))
    → cursor < 256
    → scan_name fuel path cursor name ≡ none
scan_name-diverges zero path cursor name long lt = unfold scan_name in refl
scan_name-diverges (suc fuel) path cursor name long lt =
    let (no_slash, no_end) = long cursor lt in
    scan_on fuel path cursor name (
      ap (λ b. b || (char_at path cursor == 0)) (==-ne (char_at path cursor) slash no_slash)
      ∙ ==-ne (char_at path cursor) 0 no_end)
    ∙ scan_name-diverges fuel path ((cursor + 1) % 256) (grow name (char_at path cursor)) long
        (omega arith)

-- A name that has begun is not empty.
word_begun : (name rest : List ℕ) → 0 < length name → 0 < length (word name rest).0
word_begun name [] h = unfold word in h
word_begun name (c ∷ cs) h = elim (Bool-cases (c == slash)) [
  | inl yes_slash ↦ rw (word-slash name cs c yes_slash) h
  | inr no_slash ↦
      let longer =
        if_both (λ l. 0 < length l) (ltb (length name) 127)
          (omega (arith, length-append name (c ∷ []))) h in
      rw (word_char name cs c no_slash) (word_begun (grow name c) cs longer)
]

pub word-nonempty :
    (c : ℕ) (cs : List ℕ)
    → (c == slash) ≡ false
    → (x : ℕ) × (xs : List ℕ) × ((word [] (c ∷ cs)).0 ≡ x ∷ xs)
      × (length (word [] (c ∷ cs)).1 ≤ length cs)
word-nonempty c cs e =
    let w = word_char [] cs c e in
    let (x, xs, same) = cons (word (c ∷ []) cs).0 (word_begun (c ∷ []) cs (omega arith)) in
    (x, xs, ap (λ (w : List ℕ × List ℕ). w.0) w ∙ same, rw w (length-word (c ∷ []) cs))
  where
    cons : (l : List ℕ) → 0 < length l → (x : ℕ) × (xs : List ℕ) × (l ≡ x ∷ xs)
    cons [] h = absurd (omega arith)
    cons (x ∷ xs) h = (x, xs, refl)

length-drop_slash : (rest : List ℕ) → length (drop_slash rest) ≤ length rest
unfolding drop_slash
length-drop_slash [] = omega arith
length-drop_slash (c ∷ cs) = elim (Bool-cases (c == slash)) [
  | inl yes_slash ↦ rw (if_true _ cs (c ∷ cs) yes_slash) (omega arith)
  | inr no_slash ↦ rw (if_false _ cs (c ∷ cs) no_slash) (omega arith)
]

-- A name or a slash is gone after a round.
pub left_shorter : (c : ℕ) (cs : List ℕ) → length (drop_slash (word [] (c ∷ cs)).1) ≤ length cs
left_shorter c cs = elim (Bool-cases (c == slash)) [
  | inl yes_slash ↦
      rw (word-slash [] cs c yes_slash)
        (unfold drop_slash in rw (if_true _ cs (c ∷ cs) yes_slash) (omega arith))
  | inr no_slash ↦
      omega (arith, length-drop_slash (word [] (c ∷ cs)).1, (word-nonempty c cs no_slash).3)
]

pub drop_slash-IsText : (rest : List ℕ) → IsText rest → IsText (drop_slash rest)
unfolding drop_slash
drop_slash-IsText [] t = tt
drop_slash-IsText (c ∷ cs) t = if_both IsText (c == slash) t.1 t

-- One name, and the cursor behind the slash that ends it.
pub scan_advance :
    (fuel : ℕ) (pre rest : List ℕ)
    → IsText rest
    → length rest < fuel
    → length (pre ++ rest) < 256
    → (c : ℕ) × (pre' : List ℕ) × (scan_name fuel (pre ++ rest) (length pre) []
        ≡ some (c, (word [] rest).0))
      × (skip_slash (pre ++ rest) c ≡ length pre')
      × (pre ++ rest ≡ pre' ++ drop_slash (word [] rest).1)
scan_advance fuel pre rest text room small =
    let (pre1, runs, same) = scan_name-word fuel pre rest [] text room small in
    let (pre2, skips, same2) =
      skip_slash-drop pre1 (word [] rest).1 (subst (λ p. length p < 256) same small) in
    (length pre1, pre2, runs, ap (λ p. skip_slash p (length pre1)) same ∙ skips, same ∙ same2)
