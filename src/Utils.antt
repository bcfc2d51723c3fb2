-- ===== src/Utils.antt =====
-- Formatted output, kernel/src/utils.
pub mod Kprintf
