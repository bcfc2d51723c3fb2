-- ===== src/Arch/Ioapic/Masks.antt =====
-- Masking interrupts at the I/O APIC, kernel/src/arch/x86_64/apic/ioapic.c.
use ded_os.Base.{
  ℕ, zero, suc, ◌+◌, ◌*◌, ◌/◌, ◌%◌, ◌^◌, ◌<◌, ◌≤◌, ◌≡◌, refl, sym, ◌∙◌, ap, ◌⊎◌, inl, inr, true,
  false, none, some, arith, leb, ◌==◌, ==_iff, ==_self, Bool-cases, if◌then◌else◌, if_true,
  if_false, ◌&&◌,
}
use ded_os.Arch.Ioapic.{
  Device, ioapic_masked, with_mask, without_mask, ioapic_read_redir, ioapic_write_redir,
  ioapic_mask, ioapic_unmask, mask_all,
}
use ded_os.Arch.Ioapic.Entries.{redirection, read_redir_lem, write_redir_lem}

module _ {D : Type 0} (dev : Device D) where
  redirection_lt : (d : D) (irq : ℕ) → redirection dev d irq < 2 ^ 64
  redirection_lt d irq =
      omega (arith, dev.reg_word d (16 + irq * 2), dev.reg_word d (16 + irq * 2 + 1))

  -- What a change of one entry leaves of the table.
  changed :
      (irq v : ℕ) (d : D) (j : ℕ)
      → irq < 120
      → v < 2 ^ 64
      → redirection dev (ioapic_write_redir dev irq v (ioapic_read_redir dev irq d).0) j
        ≡ (if j == irq then v else redirection dev d j)
  changed irq v d j h small =
      let same = (read_redir_lem dev irq d h).1 in
      write_redir_lem dev irq v (ioapic_read_redir dev irq d).0 j h small
      ∙ ap
          (λ x.
            if j == irq
            then v
            else x + dev.reg (ioapic_read_redir dev irq d).0 (16 + j * 2 + 1) * 2 ^ 32)
          (same (16 + j * 2))
      ∙ ap (λ x. if j == irq then v else dev.reg d (16 + j * 2) + x * 2 ^ 32)
          (same (16 + j * 2 + 1))

  pub ioapic_mask_lem :
      (irq : ℕ) (d : D) (j : ℕ)
      → irq < 120
      → redirection dev (ioapic_mask dev irq d) j
        ≡ (if j == irq then with_mask (redirection dev d irq) else redirection dev d j)
  unfolding ioapic_mask
  ioapic_mask_lem irq d j h =
      ap
        (λ e.
          redirection dev (ioapic_write_redir dev irq (with_mask e) (ioapic_read_redir dev irq d).0)
            j)
        (read_redir_lem dev irq d h).0
      ∙ changed irq (with_mask (redirection dev d irq)) d j h
          (unfold with_mask in ground (arith, redirection_lt d irq))

  pub ioapic_unmask_lem :
      (irq : ℕ) (d : D) (j : ℕ)
      → irq < 120
      → redirection dev (ioapic_unmask dev irq d) j
        ≡ (if j == irq then without_mask (redirection dev d irq) else redirection dev d j)
  unfolding ioapic_unmask
  ioapic_unmask_lem irq d j h =
      ap
        (λ e.
          redirection dev
            (ioapic_write_redir dev irq (without_mask e) (ioapic_read_redir dev irq d).0) j)
        (read_redir_lem dev irq d h).0
      ∙ changed irq (without_mask (redirection dev d irq)) d j h
          (unfold without_mask in ground (arith, redirection_lt d irq))

  -- What a view of entries does not tell apart from the entry of `irq` it does not tell apart in the table.
  same_view :
      (view : ℕ → ℕ) (irq j v : ℕ) (d : D)
      → view v ≡ view (redirection dev d irq)
      → view (if j == irq then v else redirection dev d j) ≡ view (redirection dev d j)
  same_view view irq j v d e = elim (Bool-cases (j == irq)) [
    | inl same ↦
        ap view (if_true (j == irq) v (redirection dev d j) same)
        ∙ e
        ∙ ap (λ i. view (redirection dev d i)) (sym ((==_iff j irq).0 same))
    | inr other ↦ ap view (if_false (j == irq) v (redirection dev d j) other)
  ]

  -- For an interrupt below 120, `ioapic_mask` sets the mask bit of its entry, and `ioapic_unmask` clears it;
  -- in every entry of the table both leave the bits below the mask bit and those above it as they are.
  pub ioapic_mask-ioapic_unmask :
      (irq : ℕ) (d : D) (j : ℕ)
      → irq < 120
      → let m = ioapic_mask dev irq d in
        let u = ioapic_unmask dev irq d in
        (redirection dev m irq / 2 ^ 16 % 2 ≡ 1)
        × (redirection dev u irq / 2 ^ 16 % 2 ≡ 0)
        × (redirection dev m j % 2 ^ 16 ≡ redirection dev d j % 2 ^ 16)
        × (redirection dev u j % 2 ^ 16 ≡ redirection dev d j % 2 ^ 16)
        × (redirection dev m j / 2 ^ 17 ≡ redirection dev d j / 2 ^ 17)
        × (redirection dev u j / 2 ^ 17 ≡ redirection dev d j / 2 ^ 17)
  ioapic_mask-ioapic_unmask irq d j h =
      let e = redirection dev d irq in
      let m_j = ioapic_mask_lem irq d j h in
      let u_j = ioapic_unmask_lem irq d j h in
      (
        ap (λ e. e / 2 ^ 16 % 2)
              (ioapic_mask_lem irq d irq h ∙ if_true (irq == irq) (with_mask e) e (==_self irq))
            ∙ unfold with_mask in ground arith,
        ap (λ e. e / 2 ^ 16 % 2)
              (ioapic_unmask_lem irq d irq h
                ∙ if_true (irq == irq) (without_mask e) e (==_self irq))
            ∙ unfold without_mask in ground arith,
        ap (λ e. e % 2 ^ 16) m_j
            ∙ same_view (λ e. e % 2 ^ 16) irq j (with_mask e) d (unfold with_mask in ground arith),
        ap (λ e. e % 2 ^ 16) u_j
            ∙ same_view (λ e. e % 2 ^ 16) irq j (without_mask e) d
                (unfold without_mask in ground arith),
        ap (λ e. e / 2 ^ 17) m_j
            ∙ same_view (λ e. e / 2 ^ 17) irq j (with_mask e) d (unfold with_mask in ground arith),
        ap (λ e. e / 2 ^ 17) u_j
            ∙ same_view (λ e. e / 2 ^ 17) irq j (without_mask e) d
                (unfold without_mask in ground arith),
      )

  -- When the device reports 255 as its last entry, the loop of `ioapic_init` never ends: its counter is a
  -- byte, and no byte is above 255.
  pub mask_all-diverges : (fuel i : ℕ) (d : D) → i < 256 → mask_all dev fuel i 255 d ≡ none
  unfolding mask_all
  mask_all-diverges zero i d h = refl
  mask_all-diverges (suc fuel) i d h =
      let below : leb i 255 ≡ true = ground arith in
      if_true (leb i 255)
        (mask_all dev fuel ((i + 1) % 256) 255 (ioapic_write_redir dev i ioapic_masked d)) (some d)
        below
      ∙ mask_all-diverges fuel ((i + 1) % 256) (ioapic_write_redir dev i ioapic_masked d)
          (omega arith)

  -- With a last entry below 120, a start at most one behind it, and fuel for one round more than there are
  -- entries between, the loop of `ioapic_init` ends: the entries from `i` to the last are masked and hold
  -- nothing else, the others are as they were.
  pub mask_all-masks :
      (fuel i last : ℕ) (d : D)
      → last < 120
      → i ≤ last + 1
      → last + 2 ≤ fuel + i
      → (d' : D) × (mask_all dev fuel i last d ≡ some d')
        × ((j : ℕ)
            → redirection dev d' j
              ≡ (if leb i j && leb j last then ioapic_masked else redirection dev d j))
  unfolding mask_all
  mask_all-masks zero i last d small from_i enough = absurd (omega arith)
  mask_all-masks (suc fuel) i last d small from_i enough = elim (Bool-cases (leb i last)) [
    | inl more ↦
        let le : i ≤ last = ground arith in
        let d1 = ioapic_write_redir dev i ioapic_masked d in
        let at : (i + 1) % 256 ≡ i + 1 = omega arith in
        let (d', runs, table) =
          mask_all-masks fuel (i + 1) last d1 small (omega arith) (omega arith) in
        (
          d',
          if_true (leb i last) (mask_all dev fuel ((i + 1) % 256) last d1) (some d) more
              ∙ ap (λ k. mask_all dev fuel k last d1) at
              ∙ runs,
          λ j.
              table j
              ∙ ap (λ x. if leb (i + 1) j && leb j last then ioapic_masked else x)
                  (write_redir_lem dev i ioapic_masked d j (omega arith) (omega arith))
              ∙ join i j last (redirection dev d j) le (Bool-cases (j == i)),
        )
    | inr done ↦ (
      d,
      if_false (leb i last)
          (mask_all dev fuel ((i + 1) % 256) last (ioapic_write_redir dev i ioapic_masked d))
          (some d) done,
      λ j.
          sym (if_false (leb i j && leb j last) ioapic_masked (redirection dev d j) (ground arith)),
    )
  ]
    where
      join :
          (i j last x : ℕ)
          → i ≤ last
          → ((j == i) ≡ true) ⊎ ((j == i) ≡ false)
          → (if leb (i + 1) j && leb j last
              then ioapic_masked
              else if j == i
              then ioapic_masked
              else x)
            ≡ (if leb i j && leb j last then ioapic_masked else x)
      join i j last x h c = ground arith
