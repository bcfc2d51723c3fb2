-- ===== src/Arch/Ioapic.antt =====
-- The I/O APIC, kernel/src/arch/x86_64/apic/ioapic.c. The device is a parameter: a register is selected,
-- and read or written through a window. `reg` takes eight bits of the number that is passed. Or-ing and
-- clearing bit 16 of an entry, and joining its two halves, are written as arithmetic.
pub mod Entries
pub mod Masks
mod Tests
use Prim.Native.Nat.{bit_or}
use ded_os.Base.{
  ℕ, zero, suc, ◌+◌, ◌-◌, ◌*◌, ◌/◌, ◌%◌, ◌^◌, ◌<◌, ◌≤◌, ◌≡◌, Bool, true, false, Option, none, some,
  leb, ◌==◌, if◌then◌else◌,
}
use ded_os.Base.Word.{sub64}
use ded_os.Mm.Vmm.{Vmm, vmm_map, vmm_get_current, vmm_present, vmm_write}

-- What the window does: it holds the selected register, and a write to a register of the redirection
-- table, from 16 on, changes that one.
pub record Device (D : Type 0) : Type 0 where
  pub select : ℕ → D → D
  pub put : ℕ → D → D
  pub get : D → ℕ
  pub reg : D → ℕ → ℕ
  pub get_selected : (d : D) (r : ℕ) → get (select r d) ≡ reg d r
  pub reg_selected : (d : D) (r j : ℕ) → reg (select r d) j ≡ reg d j
  pub reg_put :
      (d : D) (r v j : ℕ)
      → 16 ≤ r
      → v < 2 ^ 32
      → reg (put v (select r d)) j ≡ (if j == r then v else reg d j)
  pub reg_word : (d : D) (r : ℕ) → reg d r < 2 ^ 32

abbrev pub ioapic_redtbl : ℕ
ioapic_redtbl = 0x10

abbrev pub ioapic_ver : ℕ
ioapic_ver = 0x01

abbrev pub ioapic_masked : ℕ
ioapic_masked = 2 ^ 16

-- `entry | IOAPIC_MASKED` and `entry & ~IOAPIC_MASKED`.
unfoldable pub with_mask : ℕ → ℕ
with_mask entry = if entry / 2 ^ 16 % 2 == 1 then entry else entry + ioapic_masked

unfoldable pub without_mask : ℕ → ℕ
without_mask entry = if entry / 2 ^ 16 % 2 == 1 then entry - ioapic_masked else entry

module _ {D : Type 0} (dev : Device D) where
  -- A read leaves its register selected.
  unfoldable pub ioapic_read : ℕ → D → D × ℕ
  ioapic_read r d = let d' = dev.select (r % 256) d in (d', dev.get d')

  unfoldable pub ioapic_write : ℕ → ℕ → D → D
  ioapic_write r val d = dev.put val (dev.select (r % 256) d)

  unfoldable pub ioapic_read_redir : ℕ → D → D × ℕ
  unfolding ioapic_read
  ioapic_read_redir entry d =
      let (d1, lo) = ioapic_read (ioapic_redtbl + entry * 2) d in
      let (d2, hi) = ioapic_read (ioapic_redtbl + entry * 2 + 1) d1 in (d2, lo + hi * 2 ^ 32)

  unfoldable pub ioapic_write_redir : ℕ → ℕ → D → D
  unfolding ioapic_write
  ioapic_write_redir entry val d =
      ioapic_write (ioapic_redtbl + entry * 2 + 1) (val / 2 ^ 32 % 2 ^ 32)
        (ioapic_write (ioapic_redtbl + entry * 2) (val % 2 ^ 32) d)

  unfoldable pub ioapic_redirect : ℕ → ℕ → ℕ → D → D
  unfolding ioapic_write_redir
  ioapic_redirect irq vector flags d = ioapic_write_redir irq (bit_or vector flags) d

  unfoldable pub ioapic_mask : ℕ → D → D
  unfolding ioapic_read_redir ioapic_write_redir with_mask
  ioapic_mask irq d =
      let (d', entry) = ioapic_read_redir irq d in ioapic_write_redir irq (with_mask entry) d'

  unfoldable pub ioapic_unmask : ℕ → D → D
  unfolding ioapic_read_redir ioapic_write_redir without_mask
  ioapic_unmask irq d =
      let (d', entry) = ioapic_read_redir irq d in ioapic_write_redir irq (without_mask entry) d'

  -- `for (uint8_t i = ...; i <= max_redir; i++)`, on fuel.
  unfoldable pub mask_all : ℕ → ℕ → ℕ → D → Option D
  unfolding ioapic_write_redir
  mask_all zero i max_redir d = none
  mask_all (suc fuel) i max_redir d =
      let rest = mask_all fuel ((i + 1) % 256) max_redir (ioapic_write_redir i ioapic_masked d) in
      if leb i max_redir then rest else some d

  -- `base` is the address that the MADT gives; the window is mapped there.
  unfoldable pub ioapic_init :
      {P : Type 0} → (P → P × ℕ) → ℕ → ℕ → Vmm P × D → Option (Vmm P × (D × ℕ))
  unfolding ioapic_read mask_all
  ioapic_init alloc fuel base (vmm, d) =
      let mapped =
        vmm_map alloc (vmm_get_current vmm) base (sub64 base vmm.hhdm_offset)
          (vmm_present + vmm_write) vmm in
      let (d', ver) = ioapic_read ioapic_ver d in
      elim (mask_all fuel 0 (ver / 2 ^ 16 % 256) d') [
        | none ↦ none
        | some d'' ↦ some (mapped, (d'', base))
      ]
