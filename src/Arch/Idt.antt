-- ===== src/Arch/Idt.antt =====
-- kernel/src/arch/x86_64/idt.c. The table is a function from vectors to gates. The stubs are assembly:
-- their addresses, `isr_stub_table` and `irq_stub_table`, are parameters. The call of pic_init between
-- the loops and the load of the table register do not touch the table.
pub mod Handlers
use ded_os.Base.{ℕ, zero, suc, ◌+◌, ◌*◌, ◌/◌, ◌%◌, ◌^◌}
use ded_os.Base.Memory.{update}

pub record IdtEntry : Type 0 where
  pub isr_low : ℕ
  pub kernel_cs : ℕ
  pub ist : ℕ
  pub attributes : ℕ
  pub isr_mid : ℕ
  pub isr_high : ℕ
  pub reserved : ℕ

abbrev pub Idt : Type 0
Idt = ℕ → IdtEntry

abbrev pub gate : ℕ → ℕ → IdtEntry
gate addr flags = record {
  isr_low = addr % 2 ^ 16;
  isr_mid = addr / 2 ^ 16 % 2 ^ 16;
  isr_high = addr / 2 ^ 32 % 2 ^ 32;
  kernel_cs = 0x08;
  ist = 0;
  attributes = flags;
  reserved = 0;
}

unfoldable pub idt_set_entry : ℕ → ℕ → ℕ → Idt → Idt
idt_set_entry vector handler flags idt = update idt vector (gate handler flags)

-- The loops of `idt_init`: `n` entries from `i` on, of the vectors from `base` on.
unfoldable pub set_entries : ℕ → ℕ → ℕ → (ℕ → ℕ) → Idt → Idt
set_entries zero i base stubs idt = idt
set_entries (suc n) i base stubs idt =
    set_entries n (i + 1) base stubs (idt_set_entry (base + i) (stubs i) 0x8E idt)

unfoldable pub idt_init : (ℕ → ℕ) → (ℕ → ℕ) → Idt → Idt
idt_init isr_stub_table irq_stub_table idt =
    set_entries 16 0 32 irq_stub_table (set_entries 32 0 0 isr_stub_table idt)
