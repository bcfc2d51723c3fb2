-- ===== src/Utils/Kprintf.antt =====
-- kernel/src/utils/kprintf.c. What is written to the serial port and to the terminal is a list of
-- characters each. A format is the list of its characters, and the variable arguments are 64-bit
-- words; `string_at` gives the string that a pointer argument points to. Where the code reads past
-- the end of the format or of the arguments the result is `none`.
pub mod Digits
pub mod Text
mod Tests
use ded_os.Base.{
  ℕ, zero, suc, ◌+◌, ◌-◌, ◌*◌, ◌/◌, ◌%◌, ◌^◌, Bool, true, false, Option, none, some, List, [], ◌∷◌,
  ◌++◌, leb, ◌==◌, if◌then◌else◌, get_or,
}
use ded_os.Base.Word.{sub64}
use ded_os.Base.Partial.{◌>>=◌}

pub record Output : Type 0 where
  pub serial : List ℕ
  pub screen : List ℕ

unfoldable pub kputchar : ℕ → Output → Output
kputchar c o = record {
  serial = o.serial ++ (c ∷ []);
  screen = o.screen ++ (if c == 10 then 13 ∷ 10 ∷ [] else c ∷ []);
}

unfoldable pub kputs : List ℕ → Output → Output
kputs [] o = o
kputs (c ∷ s) o = kputs s (kputchar c o)

abbrev pub digits : List ℕ
digits = 48 ∷ 49 ∷ 50 ∷ 51 ∷ 52 ∷ 53 ∷ 54 ∷ 55 ∷ 56 ∷ 57 ∷ 65 ∷ 66 ∷ 67 ∷ 68 ∷ 69 ∷ 70 ∷ []

-- `while (n)`: the digits in `buf`, the last written first.
unfoldable pub digits_loop : ℕ → ℕ → ℕ → List ℕ → Option (List ℕ)
digits_loop zero n base buf = none
digits_loop (suc fuel) n base buf =
    let rest = digits_loop fuel (n / base) base (get_or digits (n % base) 0 ∷ buf) in
    if n == 0 then some buf else rest

-- `while (i--)` writes what the buffer holds, the last first.
unfoldable pub kputuint : ℕ → ℕ → ℕ → Output → Option Output
kputuint fuel n base o =
    let written : Option Output = elim (digits_loop fuel n base []) [
      | none ↦ none
      | some buf ↦ some (kputs buf o)
    ] in
    if n == 0 then some (kputchar 48 o) else written

-- The argument of `%d`, as the word that holds it.
unfoldable pub kputint : ℕ → ℕ → Output → Option Output
kputint fuel n o =
    if leb (2 ^ 63) n then kputuint fuel (sub64 0 n) 10 (kputchar 45 o) else kputuint fuel n 10 o

module _ (string_at : ℕ → List ℕ) (fuel : ℕ) where
  -- One directive, with its argument.
  unfoldable pub directive : ℕ → ℕ → Output → Option Output
  directive c arg o =
      if c == 115
      then some (kputs (string_at arg) o)
      else if c == 100
      then kputint fuel arg o
      else if c == 117
      then kputuint fuel arg 10 o
      else if c == 120
      then kputuint fuel arg 16 o
      else if c == 112
      then kputuint fuel arg 16 (kputs (48 ∷ 120 ∷ []) o)
      else some (kputchar (arg % 256) o)

  -- `%%` writes a percent sign, and a letter that is no directive nothing; both take no argument.
  abbrev pub takes_argument : ℕ → Bool
  takes_argument c =
      if c == 115
      then true
      else if c == 100
      then true
      else if c == 117
      then true
      else if c == 120
      then true
      else if c == 112
      then true
      else c == 99

  unfoldable pub kvprintf : List ℕ → List ℕ → Output → Option Output
  kvprintf [] args o = some o
  kvprintf (c ∷ []) args o = elim (c == 37) [ true ↦ none | false ↦ some (kputchar c o) ]
  kvprintf (c ∷ d ∷ fmt) args o = elim (c == 37) [
    | false ↦ kvprintf (d ∷ fmt) args (kputchar c o)
    | true ↦ elim (takes_argument d) [
      | false ↦ kvprintf fmt args (if d == 37 then kputchar 37 o else o)
      | true ↦ elim args [
        | [] ↦ none
        | arg ∷ rest ↦ do o' ← directive d arg o; kvprintf fmt rest o'
      ]
    ]
  ]
