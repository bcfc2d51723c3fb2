-- ===== src/Lib.antt =====
-- DedOS: a small x86-64 kernel in C, kernel/src.
--
-- Parts. The kernel boots through Limine, takes the memory map and sets up the physical page
-- allocator, the page tables and the heap; then the interrupt tables and the scheduler. Threads are
-- records on the heap; the timer interrupt calls the scheduler with the interrupted registers, and
-- the scheduler replaces them by those of the thread that runs next.
--
-- Base: booleans and lists over the native numbers, 64-bit words with their wrap-around, memory as a
--   function of addresses, the bits of a byte.
-- Mm/Pmm (kernel/src/mm/pmm.c): `Pmm` holds the static variables and the memory in which the bitmap
--   lies; `pmm_init`, `pmm_alloc` and `pmm_free` are the functions of that name, and each of their
--   loops is a function on the number of rounds left, which is the bound that the loop has in C. The
--   type number of usable memory, from limine.h, is a parameter. The messages to the log are left out.
-- Mm/Vmm (kernel/src/mm/vmm.c): `Vmm` holds the entries of the page tables at their virtual addresses
--   and `cr3`. The allocator is a parameter with the interface Frames, which the bitmap allocator
--   fills if page 0 is in use; its bitmap and the tables lie in different pages and are kept apart.
--   Tree is the invariant: each table belongs to one path of indices. The translation cache that
--   `invlpg` clears is not modelled.
-- Scheduler (kernel/src/scheduler/scheduler.c, thread.c, thread.h, the timer vector of
--   kernel/src/arch/x86_64/isr.c, kernel/src/arch/x86_64/regs.h): `Sched` holds the static variables
--   and the threads at their addresses, linked by `next`. `scheduler_tick_irq` is built from
--   `wake_loop`, `reap_loop` and `select_loop`, the three walks over the run queue, and `switch_to`,
--   the switch to the thread that was picked. The walks take fuel: more than the length of the run
--   queue is enough, and the theorems say so. `kfree` is the list of the addresses freed. The frame
--   that the processor pushes at `int $0x20` is a parameter of `scheduler_yield`. A call of exit,
--   sleep or yield is one event: that a timer interrupt may come between its writes and its `int` is
--   not modelled.
--   Create and Process are `thread_create` and kernel/src/scheduler/process.c, with kmalloc and kfree
--   as parameters.
--   Boot is `scheduler_init`, with the stack pointer and the addresses that it stores as parameters;
--   `started` is the scheduler that it leaves, written out.
--   Scheduler/Model is the specification: the same operations on a list of threads without links.
-- Arch/Isr (kernel/src/arch/x86_64/isr.c): `Cpu` joins the scheduler, the keyboard and the device that is
--   told of the end of an interrupt; `isr_handler` passes an interrupt to one of them. Apart runs series
--   of interrupts through it.
-- Drivers/Keyboard (kernel/src/drivers/keyboard.c): `keyboard_handler` takes the scancode that the
--   port gives. `keyboard_getchar` takes the scancodes that come while it waits. The ring buffer is
--   refined to a queue of at most 255 characters (Ring), and the handler to a model of the keys.
-- Strings (kernel/src/lib/string.c): each function over memory as a function of addresses. The loops
--   to the end of a string take fuel; more than the length of the string is enough.
-- Utils/Kprintf (kernel/src/utils/kprintf.c): the format is a list of characters, the arguments are
--   words, and the serial port and the terminal are lists. The loop over the digits takes fuel; 65 is
--   enough for a 64-bit word.
-- Arch/Idt, Arch/Gdt (kernel/src/arch/x86_64/idt.c, gdt.c): the tables as functions of the vector and
--   of the index; Decode is what the processor reads out of them.
-- Mm/Heap (kernel/src/mm/heap.c): `Heap` holds the static variables and memory as 64-bit words at virtual
--   addresses, and the page tables of Mm/Vmm with the allocator of physical pages as a parameter.
--   `kmalloc` is `alloc_pages` for large blocks and `alloc_object` for the others; the walk over the
--   slabs of a cache, `take_object`, takes fuel, and one more than the slabs of the longest cache is
--   enough. Inv is the invariant: which pages are slabs, and that the free list of each holds objects
--   of it, each once. Run is a caller that takes, writes and gives back blocks in any order. The words
--   of the page tables are kept apart from those of the heap.
-- Fs (kernel/src/fs/vfs.c, tmpfs.c): `Files` holds the nodes of tmpfs and the open nodes at the addresses
--   that kmalloc gave; kmalloc and kfree are parameters. Allocator is what is relied on: a request is sure
--   to be served if it is of 1 to `largest` bytes and `left`, the requests that are still sure, is above 0.
--   KernelHeap fills it with the heap of Mm/Heap, its requests of 1 to 1000 bytes and the pages that are
--   left. What the files do with the NULL of another request is not covered: the code does not test for
--   it. The walk over a path and over the entries of a directory takes fuel; the length of the path and
--   the most entries of a directory together, and one more, are enough. Inv is the tree that the links
--   make, and `resolve` in it what a list of names leads to, by which the lookup is specified.
-- Acpi (kernel/src/acpi/acpi.c, madt.c): memory is a function from addresses to bytes. Entries are the
--   entries of the table as data. The walk takes fuel: one round more than the table has entries, or than it
--   has bytes, unless it meets an entry of length 0. Named is the search for a table.
-- Arch/Pic, Arch/Ioapic (kernel/src/arch/x86_64/pic.c, apic/ioapic.c): the ports, and the registers of the
--   I/O APIC, as states of a device. `Device` says what the window of the I/O APIC does, with
--   registers that keep every bit that is written. The loop of
--   `ioapic_init` takes fuel, one more than there are entries.
--
-- Not modelled: the initrd, the log, the local interrupt controller and its timer;
--   the start of the kernel in main.c, which calls the parts in sequence; assembly and output.
pub mod Acpi
pub mod Arch
pub mod Base
pub mod Drivers
pub mod Fs
pub mod Mm
pub mod Scheduler
pub mod Strings
pub mod Utils
