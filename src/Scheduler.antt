-- ===== src/Scheduler.antt =====
-- Threads and their scheduler: kernel/src/scheduler, with the register frame of
-- kernel/src/arch/x86_64/regs.h and the timer path of kernel/src/arch/x86_64/isr.c.
pub mod Thread
pub mod Loops
pub mod Tick
pub mod Chain
pub mod Walks
pub mod Relink
pub mod Reap
pub mod Select
pub mod Model
pub mod Shows
pub mod Steps
pub mod Queue
pub mod Sound
pub mod Refine
pub mod Callers
pub mod System
pub mod Dead
pub mod Keep
pub mod Leak
pub mod Starve
pub mod Resume
pub mod Machine
pub mod Create
pub mod Process
pub mod Boot
mod Tests
