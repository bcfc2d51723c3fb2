-- ===== src/Strings/Ends.antt =====
-- Walks to the end of a string: strlen, strcpy and strrchr of kernel/src/lib/string.c.
use ded_os.Base.{
  ℕ, zero, suc, ◌+◌, ◌-◌, ◌%◌, ◌<◌, ◌≡◌, refl, ◌∙◌, ap, ◌⊎◌, Bool, true, false, Option, none, some,
  List, [], ◌∷◌, ◌++◌, arith, ◌==◌, ==-ne, if◌then◌else◌, if_true, if_false, length,
}
use ded_os.Base.Memory.{update, update_self, update_ne}
use ded_os.Strings.{Bytes, strlen, strlen_loop, strcpy, strcpy_loop, strrchr, strrchr_loop}
use ded_os.Strings.Blocks.{within}
use ded_os.Strings.Compare.{IsString}

strlen_loop-end :
    (fuel p : ℕ) (xs : List ℕ) (m : Bytes)
    → IsString m p xs
    → length xs < fuel
    → strlen_loop fuel p m ≡ some (p + length xs)
unfolding strlen_loop
strlen_loop-end zero p xs m s h = absurd (omega arith)
strlen_loop-end (suc fuel) p [] m s h = if_true _ _ _ (ap (λ c. c == 0) s) ∙ ap some (omega arith)
strlen_loop-end (suc fuel) p (x ∷ xs) m (e, ne, s) h =
    if_false _ _ _ (ap (λ c. c == 0) e ∙ ==-ne x 0 ne)
    ∙ strlen_loop-end fuel (p + 1) xs m s (omega arith)
    ∙ ap some (omega arith)

-- With more fuel than the string is long, `strlen` ends with its length.
pub strlen-length :
    (fuel p : ℕ) (xs : List ℕ) (m : Bytes)
    → IsString m p xs
    → length xs < fuel
    → strlen fuel p m ≡ some (length xs)
unfolding strlen
strlen-length fuel p xs m s h =
    ap (λ (r : Option ℕ). elim r [ none ↦ none | some sc ↦ some (sc - p) ])
      (strlen_loop-end fuel p xs m s h)
    ∙ ap some (omega arith)

-- A string is where it was if no write hits it.
IsString-update :
    (m : Bytes) (a v p : ℕ) (xs : List ℕ)
    → within p (length xs + 1) a ≡ false
    → IsString m p xs
    → IsString (update m a v) p xs
IsString-update m a v p [] out s = update_ne m a v p (λ e. ground arith) ∙ s
IsString-update m a v p (x ∷ xs) out (e, ne, s) = (
  update_ne m a v p (λ e. ground arith) ∙ e,
  ne,
  IsString-update m a v (p + 1) xs (ground arith) s,
)

-- `m'` has the string at `p`, and agrees with `m` outside it.
pub record Placed (p : ℕ) (xs : List ℕ) (m m' : Bytes) : Type 0 where
  pub copy : IsString m' p xs
  pub others : (a : ℕ) → within p (length xs + 1) a ≡ false → m' a ≡ m a

strcpy_loop-Placed :
    (fuel dest src : ℕ) (xs : List ℕ) (m : Bytes)
    → IsString m src xs
    → (dest + length xs < src) ⊎ (src + length xs < dest)
    → length xs < fuel
    → (m' : Bytes) × (strcpy_loop fuel dest src m ≡ some m') × Placed dest xs m m'
unfolding strcpy_loop
strcpy_loop-Placed zero dest src xs m s apart h = absurd (omega arith)
strcpy_loop-Placed (suc fuel) dest src [] m s apart h = (
  update m dest (m src),
  if_true _ _ _ (ap (λ c. c == 0) s),
  record {
    copy = update_self m dest (m src) ∙ s;
    others = λ a out. update_ne m dest _ a (λ e. ground arith);
  },
)
strcpy_loop-Placed (suc fuel) dest src (x ∷ xs) m (e, ne, s) apart h =
    let (m', run, placed) =
      strcpy_loop-Placed fuel (dest + 1) (src + 1) xs (update m dest (m src))
        (IsString-update m dest (m src) (src + 1) xs (ground arith) s) (ground arith)
        (omega arith) in
    (
      m',
      if_false _ _ _ (ap (λ c. c == 0) e ∙ ==-ne x 0 ne) ∙ run,
      record {
        copy =
            (placed.others dest (ground arith) ∙ update_self m dest (m src) ∙ e, ne, placed.copy);
        others = λ a out. placed.others a (ground arith) ∙ update_ne m dest _ a (λ e. ground arith);
      },
    )

-- With more fuel than the string is long, and room for it at `dest` that does not overlap it,
-- `strcpy` ends, returns `dest`, and leaves the string there; no other byte changes.
pub strcpy-Placed :
    (fuel dest src : ℕ) (xs : List ℕ) (m : Bytes)
    → IsString m src xs
    → (dest + length xs < src) ⊎ (src + length xs < dest)
    → length xs < fuel
    → (m' : Bytes) × (strcpy fuel dest src m ≡ some (m', dest)) × Placed dest xs m m'
unfolding strcpy
strcpy-Placed fuel dest src xs m s apart h =
    let (m', run, placed) = strcpy_loop-Placed fuel dest src xs m s apart h in
    (m', rw (run, strcpy), placed)

-- Where `c` stands last in a list.
unfoldable pub last_index : ℕ → List ℕ → Option ℕ
last_index c [] = none
last_index c (x ∷ xs) = elim (last_index c xs) [
  | some i ↦ some (i + 1)
  | none ↦ if x == c then some 0 else none
]

abbrev pub place_or : ℕ → ℕ → Option ℕ → ℕ
place_or p last none = last
place_or p last (some i) = p + i

at_end :
    (p last : ℕ) (b : Bool) → (if b then p else last) ≡ place_or p last (if b then some 0 else none)
at_end p last true = omega arith
at_end p last false = refl

one_before :
    (p last : ℕ) (b : Bool) (r : Option ℕ)
    → place_or (p + 1) (if b then p else last) r
      ≡ place_or p last (elim r [ some i ↦ some (i + 1) | none ↦ if b then some 0 else none ])
one_before p last b none = at_end p last b
one_before p last b (some i) = omega arith

strrchr_loop-last_index :
    (fuel p c last : ℕ) (xs : List ℕ) (m : Bytes)
    → IsString m p xs
    → length xs < fuel
    → strrchr_loop fuel p c last m ≡ some (place_or p last (last_index (c % 256) (xs ++ (0 ∷ []))))
unfolding strrchr_loop last_index
strrchr_loop-last_index zero p c last xs m s h = absurd (omega arith)
strrchr_loop-last_index (suc fuel) p c last [] m s h =
    if_true _ _ _ (ap (λ c. c == 0) s)
    ∙ ap some (ap (λ x. if x == c % 256 then p else last) s ∙ at_end p last (0 == c % 256))
strrchr_loop-last_index (suc fuel) p c last (x ∷ xs) m (e, ne, s) h =
    if_false _ _ _ (ap (λ c. c == 0) e ∙ ==-ne x 0 ne)
    ∙ strrchr_loop-last_index fuel (p + 1) c _ xs m s (omega arith)
    ∙ ap
        (λ y. some (
          place_or (p + 1) (if y == c % 256 then p else last)
            (last_index (c % 256) (xs ++ (0 ∷ [])))))
        e
    ∙ ap some (one_before p last (x == c % 256) (last_index (c % 256) (xs ++ (0 ∷ []))))

-- With more fuel than the string is long, `strrchr` ends with the address at which the low byte of
-- `c` stands last in the string or, for 0, with that of its end; with NULL if it does not occur.
pub strrchr-last_index :
    (fuel p c : ℕ) (xs : List ℕ) (m : Bytes)
    → IsString m p xs
    → length xs < fuel
    → strrchr fuel p c m ≡ some (place_or p 0 (last_index (c % 256) (xs ++ (0 ∷ []))))
unfolding strrchr
strrchr-last_index fuel p c xs m s h = strrchr_loop-last_index fuel p c 0 xs m s h
