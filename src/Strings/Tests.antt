-- ===== src/Strings/Tests.antt =====
-- "abca" at 10, "abd" at 20.
use ded_os.Base.{◌↔◌, ℕ, ◌-◌, ◌≡◌, refl, inr, some, List, [], ◌∷◌, arith, get_or}
use ded_os.Strings.{Bytes, nought, memmove, memcmp, strcpy}
use ded_os.Strings.Blocks.{moved, memmove-moved}
use ded_os.Strings.Compare.{read, IsString, compare_lists, opposite, memcmp-compare_lists}
use ded_os.Strings.Ends.{Placed, strcpy-Placed}

abbrev memory : Bytes
memory a = get_or (97 ∷ 98 ∷ 99 ∷ 97 ∷ 0 ∷ 7 ∷ 7 ∷ 7 ∷ 7 ∷ 7 ∷ 97 ∷ 98 ∷ 100 ∷ 0 ∷ []) (a - 10) 0

abbrev abca : List ℕ
abca = 97 ∷ 98 ∷ 99 ∷ 97 ∷ []

abca-IsString : IsString memory 10 abca
abca-IsString =
    (refl, omega arith, (refl, omega arith, (refl, omega arith, (refl, omega arith, refl))))

memmove-moved_example :
    ((memmove 11 10 4 memory).1 ≡ 11)
    × ((a : ℕ) → (memmove 11 10 4 memory).0 a ≡ moved 11 10 4 memory a)
memmove-moved_example = memmove-moved 11 10 4 memory

strcpy-Placed_example :
    (m' : Bytes) × (strcpy 5 30 10 memory ≡ some (m', 30)) × Placed 30 abca memory m'
strcpy-Placed_example =
    strcpy-Placed 5 30 10 abca memory abca-IsString (inr (omega arith)) (omega arith)

memcmp-compare_lists_example :
    (memcmp 10 20 3 memory ≡ compare_lists (read memory 10 3) (read memory 20 3))
    × ((memcmp 10 20 3 memory ≡ nought) ↔ (read memory 10 3 ≡ read memory 20 3))
    × (memcmp 20 10 3 memory ≡ opposite (memcmp 10 20 3 memory))
memcmp-compare_lists_example = memcmp-compare_lists 10 20 3 memory
