-- ===== src/Acpi/Entries.antt =====
-- The entries of the interrupt controller table as data, for kernel/src/acpi/madt.c: what a walk over
-- them should find.
use ded_os.Base.{ℕ, ◌+◌, ◌<◌, ◌≡◌, ◌%◌, List, [], ◌∷◌, ◌++◌, length, ltb, ◌==◌, if◌then◌else◌}
use ded_os.Acpi.{word32}

pub data Entry : Type 0 where
  lapic : ℕ → ℕ → Entry
  ioapic : ℕ → ℕ → Entry
  iso : Entry
  other : ℕ → Entry

-- The bytes of an entry in memory. `lapic id flags` and `ioapic address base` name what is read.
abbrev pub Holds : (ℕ → ℕ) → ℕ → Entry → Type 0
Holds m p (lapic id flags) = (m p ≡ 0) × (m (p + 3) ≡ id) × (word32 m (p + 4) ≡ flags)
Holds m p (ioapic address base) =
    (m p ≡ 1) × (word32 m (p + 4) ≡ address) × (word32 m (p + 8) ≡ base)
Holds m p iso = m p ≡ 2
Holds m p (other kind) = (m p ≡ kind) × (2 < kind)

-- The entries one behind the other from `p` to `end`, each with a length that is not 0.
abbrev pub Table : (ℕ → ℕ) → ℕ → ℕ → List Entry → Type 0
Table m p end [] = p ≡ end
Table m p end (e ∷ es) = Holds m p e × (0 < m (p + 1)) × (p < end) × Table m (p + m (p + 1)) end es

-- The ids of the enabled processors.
unfoldable pub enabled : List Entry → List ℕ
enabled [] = []
enabled (lapic id flags ∷ es) = let rest = enabled es in if flags % 2 == 1 then id ∷ rest else rest
enabled (ioapic address base ∷ es) = enabled es
enabled (iso ∷ es) = enabled es
enabled (other kind ∷ es) = enabled es

-- The addresses of the overrides.
unfoldable pub overrides : (ℕ → ℕ) → ℕ → List Entry → List ℕ
overrides m p [] = []
overrides m p (iso ∷ es) = p ∷ overrides m (p + m (p + 1)) es
overrides m p (lapic id flags ∷ es) = overrides m (p + m (p + 1)) es
overrides m p (ioapic address base ∷ es) = overrides m (p + m (p + 1)) es
overrides m p (other kind ∷ es) = overrides m (p + m (p + 1)) es

-- The address and the base of the last I/O APIC.
unfoldable pub last_ioapic : ℕ × ℕ → List Entry → ℕ × ℕ
last_ioapic r [] = r
last_ioapic r (ioapic address base ∷ es) = last_ioapic (address, base) es
last_ioapic r (lapic id flags ∷ es) = last_ioapic r es
last_ioapic r (iso ∷ es) = last_ioapic r es
last_ioapic r (other kind ∷ es) = last_ioapic r es

-- A list that takes more items until it has `n`.
unfoldable pub fill : ℕ → List ℕ → List ℕ → List ℕ
fill n xs [] = xs
fill n xs (y ∷ ys) = fill n (if ltb (length xs) n then xs ++ (y ∷ []) else xs) ys
