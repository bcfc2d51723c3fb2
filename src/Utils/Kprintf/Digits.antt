-- ===== src/Utils/Kprintf/Digits.antt =====
-- The digits that `kputuint` of kernel/src/utils/kprintf.c writes are those of the number, and fit in
-- its buffer.
use native.Mathlib.Nat.{div-add-mod, mod-lt, mul-le-mul_left}
use ded_os.Base.{
  ℕ, zero, suc, ◌+◌, ◌-◌, ◌*◌, ◌/◌, ◌%◌, ◌^◌, ◌≤◌, ◌<◌, ◌≡◌, refl, ◌≢◌, sym, ◌∙◌, ap, inl, inr,
  true, some, List, [], ◌∷◌, arith, ltb, ◌==◌, ==_iff, ==-ne, if◌then◌else◌, if_true, if_false,
  Bool-cases, get_or, length,
}
use ded_os.Base.BitOps.{every, every-at}
use ded_os.Utils.Kprintf.{Output, digits, digits_loop, kputuint, kputs}

-- What a digit stands for, and a number with the digits `cs` behind `acc`.
abbrev pub digit_value : ℕ → ℕ
digit_value c = if ltb c 58 then c - 48 else c - 55

unfoldable pub value : ℕ → ℕ → List ℕ → ℕ
value base acc [] = acc
value base acc (c ∷ cs) = value base (acc * base + digit_value c) cs

digit_table : every (λ d. digit_value (get_or digits d 0) == d) 16 ≡ true
unfolding every
digit_table = refl

digit_value-digits : (d : ℕ) → d < 16 → digit_value (get_or digits d 0) ≡ d
digit_value-digits d h =
    (==_iff _ d).0 (every-at (λ d. digit_value (get_or digits d 0) == d) h digit_table)

-- Two to the power of a count of digits.
abbrev pub doubled : ℕ → ℕ
doubled zero = 1
doubled (suc k) = doubled k * 2

halves : (n base k : ℕ) → 2 ≤ base → n < doubled (suc k) → n / base < doubled k
halves n base k two h = omega (arith, div-add-mod n base, mul-le-mul_left (n / base) two)

last_digit :
    (n base : ℕ)
    → 2 ≤ base
    → base ≤ 16
    → n / base * base + digit_value (get_or digits (n % base) 0) ≡ n
last_digit n base two most =
    let small : n % base < 16 = omega (arith, mod-lt n {m = base} (omega arith)) in
    omega (arith, div-add-mod n base, digit_value-digits (n % base) small)

-- The loop ends, with the number's digits before those that were there.
pub record Written (base n k : ℕ) (buf out : List ℕ) : Type 0 where
  pub number : value base 0 out ≡ value base n buf
  pub short : length out ≤ length buf + k

digits_loop-Written :
    (fuel n base k : ℕ) (buf : List ℕ)
    → 2 ≤ base
    → base ≤ 16
    → n < doubled k
    → k < fuel
    → (out : List ℕ) × (digits_loop fuel n base buf ≡ some out) × Written base n k buf out
unfolding digits_loop value
digits_loop-Written zero n base k buf two most h l = absurd (omega arith)
digits_loop-Written (suc fuel) n base zero buf two most h l = (
  buf,
  if_true (n == 0) _ _ (ground arith),
  record { number = ap (λ a. value base a buf) {x = 0} {y = n} (omega arith); short = omega arith },
)
digits_loop-Written (suc fuel) n base (suc k) buf two most h l = elim (Bool-cases (n == 0)) [
  | inl e ↦ (
    buf,
    if_true _ _ _ e,
    record { number = ap (λ a. value base a buf) (sym ((==_iff n 0).0 e)); short = omega arith },
  )
  | inr e ↦
      let d = get_or digits (n % base) 0 in
      let (out, run, w) =
        digits_loop-Written fuel (n / base) base k (d ∷ buf) two most (halves n base k two h)
          (omega arith) in
      (
        out,
        if_false _ _ _ e ∙ run,
        record {
          number = w.number ∙ ap (λ a. value base a buf) (last_digit n base two most);
          short = omega (arith, w.short);
        },
      )
]

-- With more than 64 units of fuel, `kputuint` of a 64-bit word that is not 0, in a base from 2 to 16,
-- ends, and writes at most 64 digits, which is the size of its buffer; read in that base they are the
-- number.
pub kputuint-value :
    (fuel n base : ℕ) (o : Output)
    → 2 ≤ base
    → base ≤ 16
    → n ≢ 0
    → n < 2 ^ 64
    → 64 < fuel
    → (out : List ℕ) × (kputuint fuel n base o ≡ some (kputs out o))
      × (value base 0 out ≡ n)
      × (length out ≤ 64)
unfolding kputuint
kputuint-value fuel n base o two most ne h l =
    let (out, run, w) = digits_loop-Written fuel n base 64 [] two most (omega arith) l in
    (
      out,
      if_false _ _ _ (==-ne n 0 ne) ∙ rw (run, kputuint),
      w.number ∙ unfold value in refl,
      omega (arith, w.short),
    )
