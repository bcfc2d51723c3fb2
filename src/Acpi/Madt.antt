-- ===== src/Acpi/Madt.antt =====
-- `madt_init` of kernel/src/acpi/madt.c: the walk over the entries of the interrupt controller table.
use ded_os.Base.{
  ℕ, zero, suc, ◌+◌, ◌%◌, Option, none, some, List, [], ◌∷◌, ◌++◌, ltb, ◌==◌, if◌then◌else◌,
}
use ded_os.Base.Word.{add64}
use ded_os.Acpi.{word32}
use ded_os.Acpi.Find.{Acpi, acpi_find_table}

abbrev pub max_cpus : ℕ
max_cpus = 16

abbrev pub max_isos : ℕ
max_isos = 16

-- The static variables; `lapic_ids` and `isos` are the used parts of the arrays.
pub record Madt : Type 0 where
  pub lapic_addr : ℕ
  pub cpu_count : ℕ
  pub lapic_ids : List ℕ
  pub ioapic_addr : ℕ
  pub ioapic_gsi_base : ℕ
  pub isos : List ℕ
  pub iso_count : ℕ

-- case 0: the local APIC of a processor that is enabled.
unfoldable pub read_lapic : (ℕ → ℕ) → ℕ → Madt → Madt
read_lapic m entry s =
    if word32 m (entry + 4) % 2 == 1
    then if ltb s.cpu_count max_cpus
      then record s {
        lapic_ids = s.lapic_ids ++ (m (entry + 3) ∷ []);
        cpu_count = (s.cpu_count + 1) % 256;
      }
      else s
    else s

-- case 1
unfoldable pub read_ioapic : (ℕ → ℕ) → ℕ → Madt → Madt
read_ioapic m entry s = record s {
  ioapic_addr = word32 m (entry + 4);
  ioapic_gsi_base = word32 m (entry + 8);
}

-- case 2: the address of the entry is kept.
unfoldable pub read_iso : ℕ → Madt → Madt
read_iso entry s =
    if ltb s.iso_count max_isos
    then record s { isos = s.isos ++ (entry ∷ []); iso_count = (s.iso_count + 1) % 256 }
    else s

-- The switch on the type; all others are only logged.
unfoldable pub read_entry : (ℕ → ℕ) → ℕ → Madt → Madt
unfolding read_lapic read_ioapic read_iso
read_entry m entry s =
    if m entry == 0
    then read_lapic m entry s
    else if m entry == 1
    then read_ioapic m entry s
    else if m entry == 2
    then read_iso entry s
    else s

-- The loop from `ptr` to `end`, on fuel.
unfoldable pub walk_entries : ℕ → (ℕ → ℕ) → ℕ → ℕ → Madt → Option Madt
unfolding read_entry
walk_entries zero m ptr end s = none
walk_entries (suc fuel) m ptr end s =
    let rest = walk_entries fuel m (ptr + m (ptr + 1)) end (read_entry m ptr s) in
    if ltb ptr end then rest else some s

-- sizeof(madt_t).
abbrev pub madt_size : ℕ
madt_size = 44

-- `signature` is the address of the text "APIC".
unfoldable pub madt_init : ℕ → (ℕ → ℕ) → ℕ → Acpi → Madt → Option Madt
unfolding walk_entries
madt_init fuel m signature acpi s =
    let madt = acpi_find_table m signature acpi in
    if madt == 0
    then some s
    else walk_entries fuel m (madt + madt_size) (madt + word32 m (madt + 4))
        (record s { lapic_addr = word32 m (madt + 36) })

unfoldable madt_get_lapic_addr : ℕ → Madt → ℕ
madt_get_lapic_addr hhdm_offset s = add64 s.lapic_addr hhdm_offset

unfoldable madt_get_cpu_count : Madt → ℕ
madt_get_cpu_count s = s.cpu_count

unfoldable madt_get_ioapic_addr : ℕ → Madt → ℕ
madt_get_ioapic_addr hhdm_offset s = add64 s.ioapic_addr hhdm_offset

unfoldable madt_get_ioapic_gsi_base : Madt → ℕ
madt_get_ioapic_gsi_base s = s.ioapic_gsi_base
