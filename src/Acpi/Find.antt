-- ===== src/Acpi/Find.antt =====
-- `acpi_init`, `acpi_checksum` and `acpi_find_table` of kernel/src/acpi/acpi.c.
use ded_os.Base.{ℕ, zero, suc, ◌+◌, ◌*◌, ◌/◌, ◌%◌, Bool, ◌&&◌, leb, ◌==◌, if◌then◌else◌}
use ded_os.Base.Word.{add64, sub64}
use ded_os.Acpi.{word32, word64}

-- The static variables, and the offset of the direct map.
pub record Acpi : Type 0 where
  pub rsdt : ℕ
  pub xsdt : ℕ
  pub hhdm_offset : ℕ

-- sizeof(acpi_sdt_header_t).
abbrev pub header_size : ℕ
header_size = 36

-- The sum of `n` bytes in a `uint8_t`.
unfoldable sum_bytes : ℕ → (ℕ → ℕ) → ℕ → ℕ → ℕ
sum_bytes zero m p sum = sum
sum_bytes (suc n) m p sum = sum_bytes n m (p + 1) ((sum + m p) % 256)

unfoldable acpi_checksum : (ℕ → ℕ) → ℕ → Bool
unfolding sum_bytes
acpi_checksum m header = sum_bytes (word32 m (header + 4)) m header 0 == 0

-- `revision` is the byte 15 of the structure, `rsdt_address` the word at 16, `xsdt_address` at 24.
unfoldable pub acpi_init : (ℕ → ℕ) → ℕ → Acpi → Acpi
acpi_init m rsdp s =
    if leb 2 (m (rsdp + 15))
    then record s { xsdt = add64 (word64 m (rsdp + 24)) s.hhdm_offset }
    else record s { rsdt = add64 (word32 m (rsdp + 16)) s.hhdm_offset }

-- The four characters at `t` are those at `signature`.
unfoldable pub has_signature : (ℕ → ℕ) → ℕ → ℕ → Bool
has_signature m t signature =
    (m t == m signature)
    && ((m (t + 1) == m (signature + 1))
        && ((m (t + 2) == m (signature + 2)) && (m (t + 3) == m (signature + 3))))

-- The loop over the entries, with `n` left; `table i` is the address in entry `i`.
unfoldable pub find_entry : ℕ → ℕ → (ℕ → ℕ) → (ℕ → ℕ) → ℕ → ℕ
unfolding has_signature
find_entry zero i table m signature = 0
find_entry (suc n) i table m signature =
    let rest = find_entry n (i + 1) table m signature in
    if has_signature m (table i) signature then table i else rest

-- The addresses in an XSDT are used as they are.
unfoldable pub acpi_find_table : (ℕ → ℕ) → ℕ → Acpi → ℕ
unfolding find_entry
acpi_find_table m signature s =
    let xcount = sub64 (word32 m (s.xsdt + 4)) header_size / 8 in
    let rcount = sub64 (word32 m (s.rsdt + 4)) header_size / 4 in
    if s.xsdt == 0
    then if s.rsdt == 0
      then 0
      else find_entry rcount 0 (λ i. add64 (word32 m (s.rsdt + header_size + 4 * i)) s.hhdm_offset)
          m signature
    else find_entry xcount 0 (λ i. word64 m (s.xsdt + header_size + 8 * i)) m signature
