-- ===== src/Drivers/Keyboard/Keys.antt =====
-- Bit 7 of a scancode says that a key was released, and the other bits say which.
use Prim.Native.Nat.{bit_and}
use ded_os.Base.{
  ℕ, zero, suc, ◌-◌, ◌≤◌, ◌<◌, ◌≡◌, refl, [], ◌∷◌, Bool, true, not, ◌&&◌, List, arith, leb, ◌==◌,
  if◌then◌else◌, get_or, length,
}
use ded_os.Base.BitOps.{test_bit, every, every-at}

-- What is checked of each scancode.
code_laws : ℕ → Bool
code_laws code =
    let released = test_bit code 7 in
    if leb 128 code then released && (bit_and code 0x7F == code - 128) else not released

code_table : every code_laws 256 ≡ true
unfolding every code_laws test_bit
code_table = refl

pub test_bit-released : (code : ℕ) → code < 256 → test_bit code 7 ≡ leb 128 code
unfolding code_laws
test_bit-released code h = ground (arith, every-at code_laws h code_table)

pub bit_and-released :
    (code : ℕ) → code < 256 → leb 128 code ≡ true → bit_and code 0x7F ≡ code - 128
unfolding code_laws
bit_and-released code h up = ground (arith, every-at code_laws h code_table)

-- Past the end of a table there is no character.
pub get_or-past : (xs : List ℕ) (i : ℕ) → length xs ≤ i → get_or xs i 0 ≡ 0
get_or-past [] i h = refl
get_or-past (x ∷ xs) zero h = absurd (omega arith)
get_or-past (x ∷ xs) (suc i) h = get_or-past xs i (omega arith)
