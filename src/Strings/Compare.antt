-- ===== src/Strings/Compare.antt =====
-- Comparing bytes and strings: memcmp and strcmp of kernel/src/lib/string.c.
use ded_os.Base.{
  ==_self, ◌↔◌, ℕ, zero, suc, ◌+◌, ◌<◌, ◌≡◌, refl, ◌≢◌, sym, ◌∙◌, ap, Bool, true, false, some, List,
  [], ◌∷◌, arith, ltb, ◌==◌, ==-ne, if◌then◌else◌, length,
}
use ded_os.Strings.{Bytes, Sign, minus_one, nought, plus_one, memcmp_from, memcmp, strcmp}

-- The `n` bytes from `p` on.
abbrev pub read : Bytes → ℕ → ℕ → List ℕ
read m p zero = []
read m p (suc n) = m p ∷ read m (p + 1) n

-- From `p` on stands the string `xs`, which has no NUL in it, with a NUL behind it.
abbrev pub IsString : Bytes → ℕ → List ℕ → Type 0
IsString m p [] = m p ≡ 0
IsString m p (x ∷ xs) = (m p ≡ x) × (x ≢ 0) × IsString m (p + 1) xs

-- The order of a dictionary.
unfoldable pub compare_lists : List ℕ → List ℕ → Sign
compare_lists [] [] = nought
compare_lists [] (y ∷ ys) = minus_one
compare_lists (x ∷ xs) [] = plus_one
compare_lists (x ∷ xs) (y ∷ ys) =
    let rest = compare_lists xs ys in
    if x == y then rest else if ltb x y then minus_one else plus_one

abbrev pub opposite : Sign → Sign
opposite minus_one = plus_one
opposite nought = nought
opposite plus_one = minus_one

-- The order is antisymmetric, and equality is being the same list.
compare_lists-opposite : (xs ys : List ℕ) → compare_lists ys xs ≡ opposite (compare_lists xs ys)
unfolding compare_lists
compare_lists-opposite [] [] = refl
compare_lists-opposite [] (y ∷ ys) = refl
compare_lists-opposite (x ∷ xs) [] = refl
compare_lists-opposite (x ∷ xs) (y ∷ ys) = ground (arith, compare_lists-opposite xs ys)

compare_lists-nought : (xs ys : List ℕ) → compare_lists xs ys ≡ nought → xs ≡ ys
unfolding compare_lists
compare_lists-nought [] [] h = refl
compare_lists-nought [] (y ∷ ys) h = ground arith
compare_lists-nought (x ∷ xs) [] h = ground arith
compare_lists-nought (x ∷ xs) (y ∷ ys) h = ground (arith, compare_lists-nought xs ys)

compare_lists_self : (xs : List ℕ) → compare_lists xs xs ≡ nought
unfolding compare_lists
compare_lists_self [] = refl
compare_lists_self (x ∷ xs) = rw (==_self x) (compare_lists_self xs)

memcmp_from-compare_lists :
    (n i s1 s2 : ℕ) (m : Bytes)
    → memcmp_from n i s1 s2 m ≡ compare_lists (read m (s1 + i) n) (read m (s2 + i) n)
unfolding memcmp_from compare_lists
memcmp_from-compare_lists zero i s1 s2 m = refl
memcmp_from-compare_lists (suc n) i s1 s2 m =
    ap
      (λ rest.
        if m (s1 + i) == m (s2 + i)
        then rest
        else if ltb (m (s1 + i)) (m (s2 + i))
        then minus_one
        else plus_one)
      (memcmp_from-compare_lists n (i + 1) s1 s2 m
        ∙ ap (λ p. compare_lists (read m p n) (read m (s2 + (i + 1)) n)) (omega arith)
        ∙ ap (λ p. compare_lists (read m (s1 + i + 1) n) (read m p n)) (omega arith))

-- `memcmp` compares the two blocks as a dictionary does; it is 0 just if they are equal, and swapping
-- them turns the sign.
pub memcmp-compare_lists :
    (s1 s2 n : ℕ) (m : Bytes)
    → (memcmp s1 s2 n m ≡ compare_lists (read m s1 n) (read m s2 n))
      × ((memcmp s1 s2 n m ≡ nought) ↔ (read m s1 n ≡ read m s2 n))
      × (memcmp s2 s1 n m ≡ opposite (memcmp s1 s2 n m))
unfolding memcmp
memcmp-compare_lists s1 s2 n m = (
  same s1 s2,
  (
    λ h. compare_lists-nought _ _ (sym (same s1 s2) ∙ h),
    λ e.
        same s1 s2 ∙ ap (λ xs. compare_lists xs (read m s2 n)) e ∙ compare_lists_self (read m s2 n),
  ),
  same s2 s1 ∙ compare_lists-opposite (read m s1 n) (read m s2 n) ∙ ap opposite (sym (same s1 s2)),
)
  where
    same : (p q : ℕ) → memcmp_from n 0 p q m ≡ compare_lists (read m p n) (read m q n)
    same p q =
        memcmp_from-compare_lists n 0 p q m
        ∙ ap (λ a. compare_lists (read m a n) (read m (q + 0) n)) {x = p + 0} {y = p} (omega arith)
        ∙ ap (λ a. compare_lists (read m p n) (read m a n)) {x = q + 0} {y = q} (omega arith)

-- With more fuel than the first string is long, `strcmp` of two strings ends, and compares them as a
-- dictionary does.
pub strcmp-compare_lists :
    (fuel cs ct : ℕ) (xs ys : List ℕ) (m : Bytes)
    → IsString m cs xs
    → IsString m ct ys
    → length xs < fuel
    → strcmp fuel cs ct m ≡ some (compare_lists xs ys)
unfolding strcmp compare_lists
strcmp-compare_lists zero cs ct xs ys m a b h = absurd (omega arith)
strcmp-compare_lists (suc fuel) cs ct [] [] m a b h = ground arith
strcmp-compare_lists (suc fuel) cs ct [] (y ∷ ys) m a b h = ground arith
strcmp-compare_lists (suc fuel) cs ct (x ∷ xs) [] m a b h = ground arith
strcmp-compare_lists (suc fuel) cs ct (x ∷ xs) (y ∷ ys) m (ex, nx, a) (ey, ny, b) h =
    let rest = strcmp-compare_lists fuel (cs + 1) (ct + 1) xs ys m a b (omega arith) in
    rw (ex, ey, rest, ==-ne x 0 nx) (alike (x == y) (ltb x y))
  where
    alike :
        (e l : Bool)
        → (if e then some (compare_lists xs ys) else if l then some minus_one else some plus_one)
          ≡ some (if e then compare_lists xs ys else if l then minus_one else plus_one)
    alike true l = refl
    alike false true = refl
    alike false false = refl
