-- ===== src/Strings.antt =====
-- kernel/src/lib/string.c. Memory is a function from addresses to bytes, and a pointer is an address;
-- 0 is NULL. The loops over a count take the number of rounds left; the loops to the end of a string
-- take fuel, and are `none` when it runs out.
pub mod Blocks
pub mod Compare
pub mod Ends
mod Tests
use ded_os.Base.{
  ℕ, zero, suc, ◌+◌, ◌-◌, ◌%◌, Bool, true, false, Option, none, some, List, [], ◌∷◌, ltb, ◌==◌,
  if◌then◌else◌,
}
use ded_os.Base.Memory.{update}

abbrev pub Bytes : Type 0
Bytes = ℕ → ℕ

-- `pdest[i] = psrc[i]` for the `n` indices from `i` up.
unfoldable pub copy_up : ℕ → ℕ → ℕ → ℕ → Bytes → Bytes
copy_up zero i dest src m = m
copy_up (suc n) i dest src m = copy_up n (i + 1) dest src (update m (dest + i) (m (src + i)))

unfoldable pub memcpy : ℕ → ℕ → ℕ → Bytes → Bytes × ℕ
memcpy dest src n m = (copy_up n 0 dest src m, dest)

unfoldable pub fill_up : ℕ → ℕ → ℕ → ℕ → Bytes → Bytes
fill_up zero i s c m = m
fill_up (suc n) i s c m = fill_up n (i + 1) s c (update m (s + i) (c % 256))

unfoldable pub memset : ℕ → ℕ → ℕ → Bytes → Bytes × ℕ
memset s c n m = (fill_up n 0 s c m, s)

-- `pdest[i - 1] = psrc[i - 1]` for `i` from `n` down to 1.
unfoldable pub copy_down : ℕ → ℕ → ℕ → Bytes → Bytes
copy_down zero dest src m = m
copy_down (suc n) dest src m = copy_down n dest src (update m (dest + n) (m (src + n)))

unfoldable pub memmove : ℕ → ℕ → ℕ → Bytes → Bytes × ℕ
memmove dest src n m =
    if ltb dest src
    then (copy_up n 0 dest src m, dest)
    else if ltb src dest
    then (copy_down n dest src m, dest)
    else (m, dest)

-- The results -1, 0 and 1.
pub data Sign : Type 0 where
  minus_one nought plus_one : Sign

unfoldable pub memcmp_from : ℕ → ℕ → ℕ → ℕ → Bytes → Sign
memcmp_from zero i s1 s2 m = nought
memcmp_from (suc n) i s1 s2 m =
    let rest = memcmp_from n (i + 1) s1 s2 m in
    if m (s1 + i) == m (s2 + i)
    then rest
    else if ltb (m (s1 + i)) (m (s2 + i))
    then minus_one
    else plus_one

unfoldable pub memcmp : ℕ → ℕ → ℕ → Bytes → Sign
memcmp s1 s2 n m = memcmp_from n 0 s1 s2 m

unfoldable pub strcmp : ℕ → ℕ → ℕ → Bytes → Option Sign
strcmp zero cs ct m = none
strcmp (suc fuel) cs ct m =
    let rest = strcmp fuel (cs + 1) (ct + 1) m in
    if m cs == m ct
    then if m cs == 0 then some nought else rest
    else if ltb (m cs) (m ct)
    then some minus_one
    else some plus_one

-- `while ((*dest++ = *src++) != '\0');`
unfoldable pub strcpy_loop : ℕ → ℕ → ℕ → Bytes → Option Bytes
strcpy_loop zero dest src m = none
strcpy_loop (suc fuel) dest src m =
    let m' = update m dest (m src) in
    let rest = strcpy_loop fuel (dest + 1) (src + 1) m' in if m src == 0 then some m' else rest

unfoldable pub strcpy : ℕ → ℕ → ℕ → Bytes → Option (Bytes × ℕ)
strcpy fuel dest src m = elim (strcpy_loop fuel dest src m) [
  | none ↦ none
  | some m' ↦ some (m', dest)
]

unfoldable pub strrchr_loop : ℕ → ℕ → ℕ → ℕ → Bytes → Option ℕ
strrchr_loop zero s c last m = none
strrchr_loop (suc fuel) s c last m =
    let last' = if m s == c % 256 then s else last in
    let rest = strrchr_loop fuel (s + 1) c last' m in if m s == 0 then some last' else rest

unfoldable pub strrchr : ℕ → ℕ → ℕ → Bytes → Option ℕ
strrchr fuel s c m = strrchr_loop fuel s c 0 m

-- `for (sc = s; *sc != '\0'; ++sc);` and `sc - s`.
unfoldable pub strlen_loop : ℕ → ℕ → Bytes → Option ℕ
strlen_loop zero sc m = none
strlen_loop (suc fuel) sc m =
    let rest = strlen_loop fuel (sc + 1) m in if m sc == 0 then some sc else rest

unfoldable pub strlen : ℕ → ℕ → Bytes → Option ℕ
strlen fuel s m = elim (strlen_loop fuel s m) [ none ↦ none | some sc ↦ some (sc - s) ]
