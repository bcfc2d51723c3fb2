-- ===== src/Utils/Kprintf/Tests.antt =====
-- Directives and a number at a console with nothing on it.
use ded_os.Base.{ℕ, ◌≤◌, ◌≡◌, refl, some, List, [], ◌∷◌, arith, length}
use ded_os.Utils.Kprintf.{Output, digits_loop, kputchar, kputs, kputuint, directive, kvprintf}
use ded_os.Utils.Kprintf.Digits.{value, kputuint-value}

abbrev blank : Output
blank = record { serial = []; screen = [] }

-- "%x%%\n" of 255.
percent_x :
    kvprintf (λ p. []) 65 (37 ∷ 120 ∷ 37 ∷ 37 ∷ 10 ∷ []) (255 ∷ []) blank
    ≡ some (record { serial = 70 ∷ 70 ∷ 37 ∷ 10 ∷ []; screen = 70 ∷ 70 ∷ 37 ∷ 13 ∷ 10 ∷ [] })
unfolding kvprintf directive kputuint digits_loop kputs kputchar
percent_x = refl

kputuint-value_example :
    (out : List ℕ) × (kputuint 65 1234 10 blank ≡ some (kputs out blank))
    × (value 10 0 out ≡ 1234)
    × (length out ≤ 64)
kputuint-value_example =
    kputuint-value 65 1234 10 blank (omega arith) (omega arith) (omega arith) (omega arith)
      (omega arith)
