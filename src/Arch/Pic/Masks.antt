-- ===== src/Arch/Pic/Masks.antt =====
-- Which interrupts the controllers of kernel/src/arch/x86_64/pic.c let through.
use ded_os.Base.{
  ℕ, ◌-◌, ◌<◌, ◌≡◌, refl, ◌≢◌, sym, ◌∙◌, ap, ◌⊎◌, inl, inr, Bool, true, false, not, ◌&&◌, ◌||◌,
  arith, ltb, ◌==◌, Bool-cases,
}
use ded_os.Base.BitOps.{
  set_bit, clear_bit, test_bit, test_bit-set_bit, test_bit-clear_bit, test_bit_ones,
}
use ded_os.Base.Memory.{update, update_self, update_ne}
use ded_os.Arch.Pic.{
  Ports, outb, pic_init, pic_mask, pic_unmask, pic_disable, mask_port, mask_bit, pic1_data,
  pic2_data,
}

-- The two mask registers hold bytes.
abbrev pub IsByte : Ports → Type 0
IsByte s = (s.held pic1_data < 256) × (s.held pic2_data < 256)

-- Interrupt `irq` is masked.
abbrev pub masked : Ports → ℕ → Bool
masked s irq = test_bit (s.held (mask_port irq)) (mask_bit irq)

mask_bit_lt : (irq : ℕ) → irq < 16 → mask_bit irq < 8
mask_bit_lt irq h = ground arith

port_byte : (s : Ports) (irq : ℕ) → IsByte s → s.held (mask_port irq) < 256
port_byte s irq (b1, b2) = elim (Bool-cases (ltb irq 8)) [
  | inl low ↦ rw low b1
  | inr high ↦ rw high b2
]

-- Two interrupts share a register, and a bit of it, only if they are one.
mask_place :
    (irq j : ℕ)
    → irq < 16
    → j < 16
    → ((mask_port j ≡ mask_port irq) × ((mask_bit j == mask_bit irq) ≡ (j == irq)))
      ⊎ ((mask_port j ≢ mask_port irq) × ((j == irq) ≡ false))
mask_place irq j hi hj = elim (Bool-cases (ltb irq 8)) [
  | inl low ↦ elim (Bool-cases (ltb j 8)) [
    | inl low' ↦ inl (rw (low, low') refl, rw (low, low') refl)
    | inr high' ↦ inr (rw (low, high') (λ e. omega arith), ground arith)
  ]
  | inr high ↦ elim (Bool-cases (ltb j 8)) [
    | inl low' ↦ inr (rw (high, low') (λ e. omega arith), ground arith)
    | inr high' ↦ inl (rw (high, high') refl, rw (high, high') (ground arith))
  ]
]

-- When the mask registers hold bytes, `pic_mask` masks that interrupt, of the sixteen, and leaves the others
-- as they are.
pub masked-pic_mask :
    (s : Ports) (irq j : ℕ)
    → IsByte s
    → irq < 16
    → j < 16
    → masked (pic_mask irq s) j ≡ ((j == irq) || masked s j)
unfolding pic_mask outb
masked-pic_mask s irq j bytes hi hj = elim (mask_place irq j hi hj) [
  | inl (port, same) ↦
      ap
        (λ p.
          test_bit
            (update s.held (mask_port irq) (set_bit (s.held (mask_port irq)) (mask_bit irq)) p)
            (mask_bit j))
        port
      ∙ ap (λ v. test_bit v (mask_bit j)) (update_self s.held (mask_port irq) _)
      ∙ test_bit-set_bit (s.held (mask_port irq)) (mask_bit irq) (mask_bit j)
          (port_byte s irq bytes) (mask_bit_lt irq hi) (mask_bit_lt j hj)
      ∙ ap (λ b. b || test_bit (s.held (mask_port irq)) (mask_bit j)) same
      ∙ ap (λ p. (j == irq) || test_bit (s.held p) (mask_bit j)) (sym port)
  | inr (apart, other) ↦
      ap (λ v. test_bit v (mask_bit j)) (update_ne s.held (mask_port irq) _ (mask_port j) apart)
      ∙ ap (λ b. b || masked s j) (sym other)
]

-- `pic_unmask` lets that interrupt through, of the sixteen, and leaves the others as they are.
pub masked-pic_unmask :
    (s : Ports) (irq j : ℕ)
    → IsByte s
    → irq < 16
    → j < 16
    → masked (pic_unmask irq s) j ≡ (not (j == irq) && masked s j)
unfolding pic_unmask outb
masked-pic_unmask s irq j bytes hi hj = elim (mask_place irq j hi hj) [
  | inl (port, same) ↦
      ap
        (λ p.
          test_bit
            (update s.held (mask_port irq) (clear_bit (s.held (mask_port irq)) (mask_bit irq)) p)
            (mask_bit j))
        port
      ∙ ap (λ v. test_bit v (mask_bit j)) (update_self s.held (mask_port irq) _)
      ∙ test_bit-clear_bit (s.held (mask_port irq)) (mask_bit irq) (mask_bit j)
          (port_byte s irq bytes) (mask_bit_lt irq hi) (mask_bit_lt j hj)
      ∙ ap (λ b. not b && test_bit (s.held (mask_port irq)) (mask_bit j)) same
      ∙ ap (λ p. not (j == irq) && test_bit (s.held p) (mask_bit j)) (sym port)
  | inr (apart, other) ↦
      ap (λ v. test_bit v (mask_bit j)) (update_ne s.held (mask_port irq) _ (mask_port j) apart)
      ∙ ap (λ b. not b && masked s j) (sym other)
]

-- `pic_disable` masks all sixteen interrupts; `pic_init` leaves every interrupt masked or not as it was.
pub masked-pic_init :
    (s : Ports) (j : ℕ)
    → j < 16
    → (masked (pic_init s) j ≡ masked s j) × (masked (pic_disable s) j ≡ true)
unfolding pic_init pic_disable outb update
masked-pic_init s j hj = elim (Bool-cases (ltb j 8)) [
  | inl low ↦ (rw low refl, rw low (test_bit_ones j (ltb_lt j 8 low)))
  | inr high ↦ (rw high refl, rw high (test_bit_ones (j - 8) (omega arith)))
]
  where
    ltb_lt : (a b : ℕ) → ltb a b ≡ true → a < b
    ltb_lt a b h = ground arith
