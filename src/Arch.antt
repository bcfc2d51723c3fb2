-- ===== src/Arch.antt =====
-- The processor's tables and the interrupt controller, kernel/src/arch/x86_64.
pub mod Idt
pub mod Gdt
pub mod Pic
pub mod Ioapic
pub mod Isr
