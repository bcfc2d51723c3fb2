-- ===== src/Mm/Vmm/Pagemap.antt =====
-- `vmm_new_pagemap` of kernel/src/mm/vmm.c: a map with the upper half of the current one.
use ded_os.Base.{
  ℕ, zero, suc, ◌+◌, ◌*◌, ◌%◌, ◌≤◌, ◌<◌, ◌≡◌, refl, ◌≢◌, sym, ◌∙◌, ap, arith, ltb, if◌then◌else◌,
}
use ded_os.Base.Memory.{update, update_self, update_ne}
use ded_os.Mm.Vmm.{Vmm, phys_to_virt, entry, vmm_get_current, share_upper, vmm_new_pagemap}
use ded_os.Mm.Vmm.Tree.{cells_apart}

-- What the copy of entry `i` is.
abbrev pub shared : ℕ → ℕ → (ℕ → ℕ) → ℕ
shared current i m = if ltb i 256 then 0 else m (current + 8 * i)

module _ (pml4 current : ℕ) (whole : pml4 % 4096 ≡ 0) (whole_current : current % 4096 ≡ 0)
    (apart : pml4 ≢ current) where
  share_upper-out :
      (n i a : ℕ) (m : ℕ → ℕ)
      → ((k : ℕ) → k < n → a ≢ pml4 + 8 * (i + k))
      → share_upper n i pml4 current m a ≡ m a
  unfolding share_upper
  share_upper-out zero i a m h = refl
  share_upper-out (suc n) i a m h =
      share_upper-out n (i + 1) a _ (λ k l e. h (k + 1) (omega arith) (e ∙ omega arith))
      ∙ update_ne m (pml4 + 8 * i) _ a (λ e. h 0 (omega arith) (e ∙ omega arith))

  share_upper-at :
      (n i k : ℕ) (m : ℕ → ℕ)
      → k < n
      → i + n ≤ 512
      → share_upper n i pml4 current m (pml4 + 8 * (i + k)) ≡ shared current (i + k) m
  unfolding share_upper
  share_upper-at zero i k m h bound = absurd (omega arith)
  share_upper-at (suc n) i zero m h bound =
      share_upper-out n (i + 1) (pml4 + 8 * (i + 0)) _ (λ k l e. omega arith)
      ∙ ap (update m (pml4 + 8 * i) (shared current i m)) {x = pml4 + 8 * (i + 0)}
          {y = pml4 + 8 * i} (omega arith)
      ∙ update_self m (pml4 + 8 * i) _
      ∙ ap (λ j. shared current j m) {x = i} {y = i + 0} (omega arith)
  share_upper-at (suc n) i (suc k) m h bound =
      ap (share_upper n (i + 1) pml4 current (update m (pml4 + 8 * i) (shared current i m)))
        {x = pml4 + 8 * (i + suc k)} {y = pml4 + 8 * (i + 1 + k)} (omega arith)
      ∙ share_upper-at n (i + 1) k _ (omega arith) (omega arith)
      ∙ ap (λ x. if ltb (i + 1 + k) 256 then 0 else x)
          (update_ne m (pml4 + 8 * i) _ (current + 8 * (i + 1 + k)) (λ e. apart (
            sym
              (cells_apart current (i + 1 + k) pml4 i whole_current whole (omega arith)
                (omega arith) e).0)))
      ∙ ap (λ j. shared current j m) {x = i + 1 + k} {y = i + suc k} (omega arith)

-- If the page that the allocator gives is not that of the current map, `vmm_new_pagemap` fills it: the
-- entries of the lower half are empty, those of the upper half the current map's.
pub vmm_new_pagemap-shares :
    {P : Type 0} (alloc : P → P × ℕ) (s : Vmm P)
    → phys_to_virt s (alloc s.frames).1 % 4096 ≡ 0
    → vmm_get_current s % 4096 ≡ 0
    → phys_to_virt s (alloc s.frames).1 ≢ vmm_get_current s
    → let (s', pml4) = vmm_new_pagemap alloc s in
      (pml4 ≡ phys_to_virt s (alloc s.frames).1)
      × ((i : ℕ)
          → i < 512
          → entry s' pml4 i ≡ (if ltb i 256 then 0 else entry s (vmm_get_current s) i))
unfolding vmm_new_pagemap
vmm_new_pagemap-shares alloc s whole whole_current apart = (
  refl,
  λ i h.
      let pml4 = phys_to_virt s (alloc s.frames).1 in
      let current = vmm_get_current s in
      ap (share_upper 512 0 pml4 current s.mem) {x = pml4 + 8 * i} {y = pml4 + 8 * (0 + i)}
        (omega arith)
      ∙ share_upper-at pml4 current whole whole_current apart 512 0 i s.mem h (omega arith)
      ∙ ap (λ j. shared current j s.mem) {x = 0 + i} {y = i} (omega arith),
)
