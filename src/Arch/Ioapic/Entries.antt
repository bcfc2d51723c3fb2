-- ===== src/Arch/Ioapic/Entries.antt =====
-- The redirection table of the I/O APIC as a table of 64-bit entries, kernel/src/arch/x86_64/apic/ioapic.c.
use ded_os.Base.{
  ℕ, ◌+◌, ◌*◌, ◌/◌, ◌%◌, ◌^◌, ◌<◌, ◌≤◌, ◌≡◌, ◌∙◌, ap, ◌⊎◌, true, false, arith, ◌==◌, Bool-cases,
  if◌then◌else◌,
}
use ded_os.Arch.Ioapic.{Device, ioapic_read, ioapic_write, ioapic_read_redir, ioapic_write_redir}

module _ {D : Type 0} (dev : Device D) where
  -- The entry of an interrupt.
  abbrev pub redirection : D → ℕ → ℕ
  redirection d irq = dev.reg d (16 + irq * 2) + dev.reg d (16 + irq * 2 + 1) * 2 ^ 32

  low_byte : (irq : ℕ) → irq < 120 → (16 + irq * 2) % 256 ≡ 16 + irq * 2
  low_byte irq h = omega arith

  high_byte : (irq : ℕ) → irq < 120 → (16 + irq * 2 + 1) % 256 ≡ 16 + irq * 2 + 1
  high_byte irq h = omega arith

  -- A read gives the entry, and changes no register.
  pub read_redir_lem :
      (irq : ℕ) (d : D)
      → irq < 120
      → ((ioapic_read_redir dev irq d).1 ≡ redirection d irq)
        × ((j : ℕ) → dev.reg (ioapic_read_redir dev irq d).0 j ≡ dev.reg d j)
  unfolding ioapic_read_redir ioapic_read
  read_redir_lem irq d h =
      let r = (16 + irq * 2) % 256 in
      let r' = (16 + irq * 2 + 1) % 256 in
      let d1 = dev.select r d in
      (
        ap (λ v. v + dev.get (dev.select r' d1) * 2 ^ 32)
              (dev.get_selected d r ∙ ap (dev.reg d) (low_byte irq h))
            ∙ ap (λ v. dev.reg d (16 + irq * 2) + v * 2 ^ 32)
                (dev.get_selected d1 r'
                  ∙ dev.reg_selected d r r'
                  ∙ ap (dev.reg d) (high_byte irq h)),
        λ j. dev.reg_selected d1 r' j ∙ dev.reg_selected d r j,
      )

  write_lem :
      (r v : ℕ) (d : D) (j : ℕ)
      → 16 ≤ r
      → r < 256
      → v < 2 ^ 32
      → dev.reg (ioapic_write dev r v d) j ≡ (if j == r then v else dev.reg d j)
  unfolding ioapic_write
  write_lem r v d j lo hi word =
      let e : r % 256 ≡ r = omega arith in
      ap (λ r. dev.reg (dev.put v (dev.select r d)) j) e ∙ dev.reg_put d r v j lo word

  -- A 64-bit entry is written to its two registers, and to no other.
  pub write_redir_lem :
      (irq v : ℕ) (d : D) (j : ℕ)
      → irq < 120
      → v < 2 ^ 64
      → redirection (ioapic_write_redir dev irq v d) j ≡ (if j == irq then v else redirection d j)
  unfolding ioapic_write_redir
  write_redir_lem irq v d j h small =
      let d1 = ioapic_write dev (16 + irq * 2) (v % 2 ^ 32) d in
      let r : (k : ℕ)
          → dev.reg (ioapic_write dev (16 + irq * 2 + 1) (v / 2 ^ 32 % 2 ^ 32) d1) k ≡ (
              if k == 16 + irq * 2 + 1
              then v / 2 ^ 32 % 2 ^ 32
              else if k == 16 + irq * 2
              then v % 2 ^ 32
              else dev.reg d k) =
        λ k.
          write_lem (16 + irq * 2 + 1) (v / 2 ^ 32 % 2 ^ 32) d1 k (omega arith) (omega arith)
            (omega arith)
          ∙ ap (λ x. if k == 16 + irq * 2 + 1 then v / 2 ^ 32 % 2 ^ 32 else x)
              (write_lem (16 + irq * 2) (v % 2 ^ 32) d k (omega arith) (omega arith)
                (omega arith)) in
      ap
        (λ x.
          x
          + dev.reg (ioapic_write dev (16 + irq * 2 + 1) (v / 2 ^ 32 % 2 ^ 32) d1) (16 + j * 2 + 1)
            * 2 ^ 32)
        (r (16 + j * 2))
      ∙ ap
          (λ x.
            (if 16 + j * 2 == 16 + irq * 2 + 1
              then v / 2 ^ 32 % 2 ^ 32
              else if 16 + j * 2 == 16 + irq * 2
              then v % 2 ^ 32
              else dev.reg d (16 + j * 2))
            + x * 2 ^ 32)
          (r (16 + j * 2 + 1))
      ∙ by (Bool-cases (j == irq))
    where
      by :
          ((j == irq) ≡ true) ⊎ ((j == irq) ≡ false)
          → (if 16 + j * 2 == 16 + irq * 2 + 1
                then v / 2 ^ 32 % 2 ^ 32
                else if 16 + j * 2 == 16 + irq * 2
                then v % 2 ^ 32
                else dev.reg d (16 + j * 2))
              + (if 16 + j * 2 + 1 == 16 + irq * 2 + 1
                  then v / 2 ^ 32 % 2 ^ 32
                  else if 16 + j * 2 + 1 == 16 + irq * 2
                  then v % 2 ^ 32
                  else dev.reg d (16 + j * 2 + 1))
                * 2 ^ 32
            ≡ (if j == irq then v else redirection d j)
      by c = ground arith
