-- ===== src/Acpi/Tests.antt =====
-- A table with one enabled processor, an I/O APIC and an entry of another kind.
use ded_os.Base.{
  ltb, ◌-◌, sym, ◌==◌, if◌then◌else◌, ℕ, ◌+◌, ◌≡◌, refl, some, List, [], ◌∷◌, arith, get_or, ◌⊎◌,
}
use mathlib.Core.Path.{subst}
use ded_os.Acpi.{word32, word64}
use ded_os.Acpi.Find.{Acpi, acpi_find_table, find_entry, find_entry, has_signature}
use ded_os.Acpi.Madt.{Madt, madt_init, madt_size}
use ded_os.Acpi.Entries.{Entry, lapic, ioapic, other, Table}
use ded_os.Acpi.Init.{found, madt_init-Reads}
use ded_os.Acpi.Counters.{IsCounted, Ends, IsStuck, walk_entries-IsCounted}
use ded_os.Acpi.Named.{Answer, Listed, by_xsdt, acpi_find_table-Answer}
use ded_os.Acpi.Walk.{Reads}

abbrev bytes : List ℕ
bytes =
    0 ∷ 8 ∷ 1 ∷ 7 ∷ 1 ∷ 0 ∷ 0 ∷ 0 ∷ 1 ∷ 12 ∷ 0 ∷ 0 ∷ 16 ∷ 32 ∷ 0 ∷ 0 ∷ 9 ∷ 0 ∷ 0 ∷ 0 ∷ 4 ∷ 6 ∷ 0 ∷ 0
    ∷ 0 ∷ 0 ∷ []

abbrev memory : ℕ → ℕ
memory a = get_or bytes a 0

abbrev blank : Madt
blank = record {
  lapic_addr = 0;
  cpu_count = 0;
  lapic_ids = [];
  ioapic_addr = 0;
  ioapic_gsi_base = 0;
  isos = [];
  iso_count = 0;
}

blank-IsCounted : IsCounted blank
blank-IsCounted = record {
  cpus = refl;
  cpus_fit = omega arith;
  overridden = refl;
  isos_fit = omega arith;
}

abbrev entries : List Entry
entries = lapic 7 1 ∷ ioapic 8208 9 ∷ other 4 ∷ []

entries-Table : Table memory 0 26 entries
unfolding word32
entries-Table = (
  (refl, refl, refl),
  omega arith,
  omega arith,
  (
    (refl, refl, refl),
    omega arith,
    omega arith,
    ((refl, omega arith), omega arith, omega arith, refl),
  ),
)

walk_entries-IsCounted_example : Ends 27 memory 0 26 blank ⊎ IsStuck memory 0 26 blank
walk_entries-IsCounted_example =
    walk_entries-IsCounted 27 memory 0 26 blank blank-IsCounted (omega arith)

-- The text, the table of the interrupt controllers with the entries above, and an XSDT that points to it.
abbrev machine : ℕ → ℕ
machine a =
    if ltb a 100
    then get_or (65 ∷ 80 ∷ 73 ∷ 67 ∷ []) a 0
    else if ltb a 144
    then get_or (65 ∷ 80 ∷ 73 ∷ 67 ∷ 70 ∷ []) (a - 100) 0
    else if ltb a 200
    then memory (a - 144)
    else if a == 204
    then 44
    else if a == 236
    then 100
    else 0

abbrev tables : Acpi
tables = record { rsdt = 0; xsdt = 200; hhdm_offset = 0 }

is_found : found machine 0 tables ≡ 100
unfolding acpi_find_table find_entry has_signature word32 word64
is_found = refl

machine-Listed : Listed machine tables (100 ∷ [])
unfolding word32 word64
machine-Listed =
    by_xsdt (omega arith) (record { bounded = omega arith; low = omega arith; high = omega arith })
      (refl, tt)

acpi_find_table-Answer_example : Answer machine 0 (100 ∷ []) (acpi_find_table machine 0 tables)
acpi_find_table-Answer_example = acpi_find_table-Answer machine 0 tables (100 ∷ []) machine-Listed

machine-Table : Table machine 144 170 entries
unfolding word32
machine-Table = (
  (refl, refl, refl),
  omega arith,
  omega arith,
  (
    (refl, refl, refl),
    omega arith,
    omega arith,
    ((refl, omega arith), omega arith, omega arith, refl),
  ),
)

machine_length : word32 machine 104 ≡ 70
unfolding word32
machine_length = refl

found-Table :
    Table machine
      (found machine 0 tables + madt_size)
      (found machine 0 tables + word32 machine (found machine 0 tables + 4))
      entries
found-Table =
    subst (λ t. Table machine (t + madt_size) (t + word32 machine (t + 4)) entries) (sym is_found)
      (subst (λ n. Table machine 144 (100 + n) entries) (sym machine_length) machine-Table)

madt_init-Reads_example :
    (s' : Madt) × (madt_init 4 machine 0 tables blank ≡ some s')
    × Reads machine
        (found machine 0 tables + madt_size)
        entries
        (record blank { lapic_addr = word32 machine (found machine 0 tables + 36) })
        s'
madt_init-Reads_example =
    madt_init-Reads 4 machine 0 tables entries blank (λ e. omega (arith, e, is_found)) found-Table
      (omega arith) blank-IsCounted
