-- ===== src/Acpi/Init.antt =====
-- `madt_init` of kernel/src/acpi/madt.c on the table that `acpi_find_table` finds.
use ded_os.Base.{ℕ, ◌+◌, ◌<◌, ◌≡◌, ◌≢◌, ◌∙◌, some, List, ◌==◌, ==-ne, if_false, length}
use ded_os.Acpi.{word32}
use ded_os.Acpi.Find.{Acpi, acpi_find_table}
use ded_os.Acpi.Madt.{Madt, madt_init, madt_size}
use ded_os.Acpi.Entries.{Entry, Table}
use ded_os.Acpi.Counters.{IsCounted}
use ded_os.Acpi.Walk.{Reads, walk_entries-Reads}

-- The address where `acpi_find_table` finds the table.
abbrev pub found : (ℕ → ℕ) → ℕ → Acpi → ℕ
found m signature acpi = acpi_find_table m signature acpi

-- When a table is found, and its bytes from the end of its header to its length are the entries `es`,
-- `madt_init` ends, with fuel for one round more than there are entries. The address of the local APIC is
-- the one in the table; the ids of the enabled processors and the addresses of the overrides are added to
-- those before, in the table's order and as far as the arrays of 16 have room; the I/O APIC is the last
-- one, if there is one. The counters count what the arrays hold, as they must before.
pub madt_init-Reads :
    (fuel : ℕ) (m : ℕ → ℕ) (signature : ℕ) (acpi : Acpi) (es : List Entry) (s : Madt)
    → found m signature acpi ≢ 0
    → Table m
        (found m signature acpi + madt_size)
        (found m signature acpi + word32 m (found m signature acpi + 4))
        es
    → length es < fuel
    → IsCounted s
    → (s' : Madt) × (madt_init fuel m signature acpi s ≡ some s')
      × Reads m
          (found m signature acpi + madt_size)
          es
          (record s { lapic_addr = word32 m (found m signature acpi + 36) })
          s'
unfolding madt_init
madt_init-Reads fuel m signature acpi es s some_table t enough c =
    let madt = found m signature acpi in
    let (s', runs, r) =
      walk_entries-Reads fuel m (madt + madt_size) (madt + word32 m (madt + 4)) es
        (record s { lapic_addr = word32 m (madt + 36) }) t enough
        (record {
          cpus = c.cpus;
          cpus_fit = c.cpus_fit;
          overridden = c.overridden;
          isos_fit = c.isos_fit;
        }) in
    (s', if_false (madt == 0) _ _ (==-ne madt 0 some_table) ∙ runs, r)
