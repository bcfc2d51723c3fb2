-- ===== src/Mm/Vmm.antt =====
-- Four-level page tables, kernel/src/mm/vmm.c. The physical page allocator is a parameter: its state
-- and its `alloc`, which returns an address, or 0 if it fails. The entries of the tables are the
-- 64-bit words at their addresses; `~0xFFF` clears twelve bits, so that a whole number of pages is
-- left, and the bits that index a table are taken by division. `cr3` is the register.
pub mod Frames
pub mod Tree
pub mod Linked
pub mod Create
pub mod Lookup
pub mod Map
pub mod Unmap
pub mod Pagemap
mod Tests
use Prim.Native.Nat.{bit_and, bit_or}
use ded_os.Base.{
  ℕ, zero, suc, ◌+◌, ◌*◌, ◌/◌, ◌%◌, ◌^◌, Bool, true, false, not, ltb, ◌==◌, if◌then◌else◌,
}
use ded_os.Base.Word.{add64, sub64}
use ded_os.Base.Memory.{update}

abbrev pub vmm_present : ℕ
vmm_present = 1

abbrev pub vmm_write : ℕ
vmm_write = 2

abbrev pub vmm_user : ℕ
vmm_user = 4

pub record Vmm (P : Type 0) : Type 0 where
  pub frames : P
  pub mem : ℕ → ℕ
  pub hhdm_offset : ℕ
  pub cr3 : ℕ

-- `e & VMM_PRESENT` and `e & ~0xFFF`.
abbrev pub is_present : ℕ → Bool
is_present e = e % 2 == 1

abbrev pub frame_of : ℕ → ℕ
frame_of e = e / 4096 * 4096

-- `(virt >> 39) & 0x1FF` and the like.
abbrev pub index_at : ℕ → ℕ → ℕ
index_at shift virt = virt / 2 ^ shift % 512

-- `virt[i] = 0` in memory for the `n` indices from `i` up.
unfoldable pub clear_entries : ℕ → ℕ → ℕ → (ℕ → ℕ) → ℕ → ℕ
clear_entries zero i table m = m
clear_entries (suc n) i table m = clear_entries n (i + 1) table (update m (table + 8 * i) 0)

-- The entries from `i` up, `n` of them: the lower half is empty, the upper half is the current one's.
unfoldable pub share_upper : ℕ → ℕ → ℕ → ℕ → (ℕ → ℕ) → ℕ → ℕ
share_upper zero i pml4 current m = m
share_upper (suc n) i pml4 current m =
    share_upper n (i + 1) pml4 current
      (update m (pml4 + 8 * i) (if ltb i 256 then 0 else m (current + 8 * i)))

module _ {P : Type 0} where
  abbrev pub phys_to_virt : Vmm P → ℕ → ℕ
  phys_to_virt s phys = add64 phys s.hhdm_offset

  abbrev pub virt_to_phys : Vmm P → ℕ → ℕ
  virt_to_phys s virt = sub64 virt s.hhdm_offset

  -- `table[index]`.
  abbrev pub entry : Vmm P → ℕ → ℕ → ℕ
  entry s table index = s.mem (table + 8 * index)

  abbrev pub set_entry : ℕ → ℕ → ℕ → Vmm P → Vmm P
  set_entry table index e s = record s { mem = update s.mem (table + 8 * index) e }

  -- The table that an entry points to.
  abbrev pub target : Vmm P → ℕ → ℕ
  target s e = phys_to_virt s (frame_of e)

  unfoldable pub vmm_unmap : ℕ → ℕ → Vmm P → Vmm P
  vmm_unmap pml4 virt s =
      let e4 = entry s pml4 (index_at 39 virt) in
      let pdpt = target s e4 in
      let e3 = entry s pdpt (index_at 30 virt) in
      let pd = target s e3 in
      let e2 = entry s pd (index_at 21 virt) in
      let pt = target s e2 in
      if not (is_present e4)
      then s
      else if not (is_present e3)
      then s
      else if not (is_present e2)
      then s
      else set_entry pt (index_at 12 virt) 0 s

  unfoldable pub vmm_get_phys : ℕ → ℕ → Vmm P → ℕ
  vmm_get_phys pml4 virt s =
      let e4 = entry s pml4 (index_at 39 virt) in
      let pdpt = target s e4 in
      let e3 = entry s pdpt (index_at 30 virt) in
      let pd = target s e3 in
      let e2 = entry s pd (index_at 21 virt) in
      let pt = target s e2 in
      if not (is_present e4)
      then 0
      else if not (is_present e3)
      then 0
      else if not (is_present e2)
      then 0
      else frame_of (entry s pt (index_at 12 virt))

  abbrev pub vmm_get_current : Vmm P → ℕ
  vmm_get_current s = phys_to_virt s (frame_of s.cr3)

  unfoldable pub vmm_switch : ℕ → Vmm P → Vmm P
  vmm_switch pml4 s = record s { cr3 = virt_to_phys s pml4 }

  unfoldable vmm_init : Vmm P → Vmm P
  unfolding vmm_switch
  vmm_init s = vmm_switch (vmm_get_current s) s

module _ {P : Type 0} (alloc : P → P × ℕ) where
  -- The table behind an entry, which is created if there is none; 0 if that fails.
  unfoldable pub get_or_create : ℕ → ℕ → ℕ → Vmm P → Vmm P × ℕ
  get_or_create table index flags s =
      let e = entry s table index in
      let (frames, phys) = alloc s.frames in
      let s' = record s { frames = frames } in
      let virt = phys_to_virt s' phys in
      let cleared = record s' { mem = clear_entries 512 0 virt s'.mem } in
      if is_present e
      then (s, target s e)
      else if phys == 0
      then (s', 0)
      else (set_entry table index (bit_or phys flags) cleared, virt)

  unfoldable pub vmm_map : ℕ → ℕ → ℕ → ℕ → Vmm P → Vmm P
  vmm_map pml4 virt phys flags s =
      let table_flags =
        if bit_and flags vmm_user == 0
        then bit_or vmm_present vmm_write
        else bit_or (bit_or vmm_present vmm_write) vmm_user in
      let (s3, pdpt) = get_or_create pml4 (index_at 39 virt) table_flags s in
      let (s2, pd) = get_or_create pdpt (index_at 30 virt) table_flags s3 in
      let (s1, pt) = get_or_create pd (index_at 21 virt) table_flags s2 in
      if pdpt == 0
      then s3
      else if pd == 0
      then s2
      else if pt == 0
      then s1
      else set_entry pt (index_at 12 virt) (bit_or phys flags) s1

  unfoldable pub vmm_new_pagemap : Vmm P → Vmm P × ℕ
  vmm_new_pagemap s =
      let (frames, phys) = alloc s.frames in
      let s' = record s { frames = frames } in
      let pml4 = phys_to_virt s' phys in
      (record s' { mem = share_upper 512 0 pml4 (vmm_get_current s') s'.mem }, pml4)
