-- ===== src/Utils/Kprintf/Text.antt =====
-- Text without directives through `kvprintf` of kernel/src/utils/kprintf.c.
use mathlib.Core.List.{append-nil, append_assoc}
use ded_os.Base.{
  ℕ, ◌≡◌, refl, ◌≢◌, sym, ◌∙◌, ap, some, List, [], ◌∷◌, ◌++◌, ◌==◌, ==-ne, if◌then◌else◌, All,
}
use ded_os.Utils.Kprintf.{Output, kputchar, kputs, kvprintf}

-- Each line feed of a text has a carriage return before it.
unfoldable pub crlf : List ℕ → List ℕ
crlf [] = []
crlf (c ∷ s) = (if c == 10 then 13 ∷ 10 ∷ [] else c ∷ []) ++ crlf s

kputs-Output :
    (s : List ℕ) (o : Output)
    → kputs s o ≡ record { serial = o.serial ++ s; screen = o.screen ++ crlf s }
unfolding kputs kputchar crlf
kputs-Output [] o =
    ap (λ xs. record { serial = xs; screen = o.screen }) (sym (append-nil o.serial))
    ∙ ap (λ xs. record { serial = o.serial ++ []; screen = xs }) (sym (append-nil o.screen))
kputs-Output (c ∷ s) o =
    kputs-Output s (kputchar c o)
    ∙ ap (λ xs. record { serial = xs; screen = (kputchar c o).screen ++ crlf s })
        (append_assoc o.serial (c ∷ []) s)
    ∙ ap (λ xs. record { serial = o.serial ++ (c ∷ s); screen = xs })
        (append_assoc o.screen (if c == 10 then 13 ∷ 10 ∷ [] else c ∷ []) (crlf s))

kvprintf-kputs :
    (string_at : ℕ → List ℕ) (fuel : ℕ) (fmt args : List ℕ) (o : Output)
    → All (λ c. c ≢ 37) fmt
    → kvprintf string_at fuel fmt args o ≡ some (kputs fmt o)
unfolding kvprintf kputs
kvprintf-kputs string_at fuel [] args o plain = refl
kvprintf-kputs string_at fuel (c ∷ []) args o plain = rw (==-ne c 37 plain.0, kvprintf)
kvprintf-kputs string_at fuel (c ∷ d ∷ fmt) args o plain =
    rw (==-ne c 37 plain.0, kvprintf)
      (kvprintf-kputs string_at fuel (d ∷ fmt) args (kputchar c o) plain.1)

-- `kvprintf` of a format without percent signs writes it as it is to the serial port, and to the
-- terminal with a carriage return before each line feed, whatever the arguments.
pub kvprintf-crlf :
    (string_at : ℕ → List ℕ) (fuel : ℕ) (fmt args : List ℕ) (o : Output)
    → All (λ c. c ≢ 37) fmt
    → kvprintf string_at fuel fmt args o
      ≡ some (record { serial = o.serial ++ fmt; screen = o.screen ++ crlf fmt })
kvprintf-crlf string_at fuel fmt args o plain =
    kvprintf-kputs string_at fuel fmt args o plain ∙ ap some (kputs-Output fmt o)
