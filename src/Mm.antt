-- ===== src/Mm.antt =====
-- Memory management: kernel/src/mm.
pub mod Pmm
pub mod Vmm
pub mod Heap
