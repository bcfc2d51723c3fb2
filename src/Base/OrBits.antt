-- ===== src/Base/OrBits.antt =====
-- `|` of numbers that share no binary digit is their sum.
use Prim.Native.Nat.{ℕ, zero, suc, ◌+◌, ◌*◌, ◌/◌, ◌≤◌, ◌<◌, max, digits, bit_or, bit_or-bitwise}
use mathlib.Core.Path.{◌≡◌, refl, ap, ◌∙◌}
use native.Mathlib.Omega.{arith}

-- `a` with `k` zero digits behind it.
abbrev pub scale : ℕ → ℕ → ℕ
scale zero a = a
scale (suc k) a = scale k a * 2

or_digits : ℕ → ℕ → ℕ → ℕ
or_digits n a b = digits (λ b. b) max n a b

or_digits-zero : (n a : ℕ) → a ≤ n → or_digits n a 0 ≡ a
unfolding or_digits
or_digits-zero zero a h = omega arith
or_digits-zero (suc n) zero h = refl
or_digits-zero (suc n) (suc a) h = omega (arith, or_digits-zero n (suc a / 2) (omega arith))

-- The digits of `a` and of a smaller `b` stand side by side.
or_digits-scale : (k n a b c : ℕ) → c ≡ scale k a → c ≤ n → b < scale k 1 → or_digits n c b ≡ c + b
unfolding or_digits
or_digits-scale zero n a b c e h l =
    ap (or_digits n c) (omega arith) ∙ or_digits-zero n c h ∙ omega arith
or_digits-scale (suc k) zero a b zero e h l = omega arith
or_digits-scale (suc k) (suc n) a b zero e h l = omega arith
or_digits-scale (suc k) zero a b (suc c) e h l = absurd (omega arith)
or_digits-scale (suc k) (suc n) a b (suc c) e h l =
    omega
      (arith, or_digits-scale k n a (b / 2) (suc c / 2) (omega arith) (omega arith) (omega arith))

pub bit_or-scale : (k a b : ℕ) → b < scale k 1 → bit_or (scale k a) b ≡ scale k a + b
unfolding or_digits
bit_or-scale k a b h =
    bit_or-bitwise (scale k a) b
    ∙ or_digits-scale k (scale k a) a b (scale k a) refl (omega arith) h

-- A whole page and flags below it.
pub bit_or-page : (p flags : ℕ) → flags < 4096 → bit_or (p * 4096) flags ≡ p * 4096 + flags
bit_or-page p flags h =
    ap (λ a. bit_or a flags) (omega arith) ∙ bit_or-scale 12 p flags h ∙ omega arith
