-- ===== src/Acpi.antt =====
-- ACPI tables, kernel/src/acpi. Memory is a function from addresses to bytes; the log is left out.
pub mod Find
pub mod Named
pub mod Madt
pub mod Entries
pub mod Counters
pub mod Walk
pub mod Init
mod Tests
use ded_os.Base.{ℕ, zero, suc, ◌+◌, ◌*◌, ◌%◌, ◌^◌}

-- The little-endian words at an address.
unfoldable pub word32 : (ℕ → ℕ) → ℕ → ℕ
word32 m p = m p + m (p + 1) * 2 ^ 8 + m (p + 2) * 2 ^ 16 + m (p + 3) * 2 ^ 24

unfoldable pub word64 : (ℕ → ℕ) → ℕ → ℕ
unfolding word32
word64 m p = word32 m p + word32 m (p + 4) * 2 ^ 32
