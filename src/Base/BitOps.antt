-- ===== src/Base/BitOps.antt =====
-- Single bits of a byte: what `|= 1 << k`, `&= ~(1 << k)` and `& (1 << k)` do, checked over all
-- 256 bytes.
use Prim.Native.Nat.{ℕ, zero, suc, ◌-◌, ◌^◌, ◌<◌, bit_and, bit_or}
use mathlib.Core.Path.{◌≡◌, refl}
use mathlib.Core.Bool.{Bool, true, false, not, ◌&&◌, ◌||◌}
use native.Mathlib.Omega.{arith}
use ded_os.Base.Tests.{◌==◌, ltb, if◌then◌else◌}

-- `b | (1 << k)`, `b & ~(1 << k)` on a byte, and the test `b & (1 << k)`.
unfoldable pub set_bit : ℕ → ℕ → ℕ
set_bit b k = bit_or b (2 ^ k)

unfoldable pub clear_bit : ℕ → ℕ → ℕ
clear_bit b k = bit_and b (255 - 2 ^ k)

unfoldable pub test_bit : ℕ → ℕ → Bool
test_bit b k = not (bit_and b (2 ^ k) == 0)

-- `p` holds of all numbers under a bound.
unfoldable pub every : (ℕ → Bool) → ℕ → Bool
every p zero = true
every p (suc bound) = let rest = every p bound in if p bound then rest else false

pub every-at : (p : ℕ → Bool) {bound x : ℕ} → x < bound → every p bound ≡ true → p x ≡ true
unfolding every
every-at p {bound = zero} {x = x} under checked = absurd (omega arith)
every-at p {bound = suc bound} {x = x} under checked =
    ground (arith, every-at p {bound = bound} {x = x})

iff : Bool → Bool → Bool
iff true b = b
iff false b = not b

iff_sound : (a b : Bool) → iff a b ≡ true → a ≡ b
unfolding iff
iff_sound true b h = ground arith
iff_sound false b h = ground arith

-- What is checked of each byte `b` at bits `j` and `k`.
bit_laws : ℕ → ℕ → ℕ → Bool
bit_laws b k j =
    ltb (set_bit b k) 256
    && (ltb (clear_bit b k) 256
        && (iff (test_bit (set_bit b k) j) ((j == k) || test_bit b j)
            && iff (test_bit (clear_bit b k) j) (not (j == k) && test_bit b j)))

bit_table : every (λ b. every (λ k. every (λ j. bit_laws b k j) 8) 8) 256 ≡ true
unfolding every bit_laws iff set_bit clear_bit test_bit
bit_table = refl

bit_laws_hold : (b k j : ℕ) → b < 256 → k < 8 → j < 8 → bit_laws b k j ≡ true
bit_laws_hold b k j hb hk hj = every-at (bit_laws b k) hj (
    every-at (λ k. every (bit_laws b k) 8) hk
      (every-at (λ b. every (λ k. every (bit_laws b k) 8) 8) hb bit_table))

module _ (b k j : ℕ) (hb : b < 256) (hk : k < 8) (hj : j < 8) where
  pub test_bit-set_bit : test_bit (set_bit b k) j ≡ ((j == k) || test_bit b j)
  unfolding bit_laws
  test_bit-set_bit = iff_sound _ _ (ground (arith, bit_laws_hold b k j hb hk hj))

  pub test_bit-clear_bit : test_bit (clear_bit b k) j ≡ (not (j == k) && test_bit b j)
  unfolding bit_laws
  test_bit-clear_bit = iff_sound _ _ (ground (arith, bit_laws_hold b k j hb hk hj))

module _ (b k : ℕ) (hb : b < 256) (hk : k < 8) where
  pub set_bit-lt : set_bit b k < 256
  unfolding bit_laws
  set_bit-lt = ground (arith, bit_laws_hold b k 0 hb hk (omega arith))

  pub clear_bit-lt : clear_bit b k < 256
  unfolding bit_laws
  clear_bit-lt = ground (arith, bit_laws_hold b k 0 hb hk (omega arith))

ones_table : every (test_bit 255) 8 ≡ true
unfolding every test_bit
ones_table = refl

-- A byte of ones has each bit set.
pub test_bit_ones : (k : ℕ) → k < 8 → test_bit 255 k ≡ true
test_bit_ones k h = every-at (test_bit 255) h ones_table
