-- ===== src/Mm/Vmm/Frames.antt =====
-- What the page tables rely on in the allocator that hands out their pages, and that the allocator of
-- kernel/src/mm/pmm.c provides it as long as page 0 is in use.
use ded_os.Base.{
  ℕ, ◌+◌, ◌*◌, ◌/◌, ◌%◌, ◌<◌, ◌≤◌, ◌≡◌, ◌≢◌, ◌∙◌, ap, Bool, true, false, arith, ◌==◌, if◌then◌else◌,
}
use ded_os.Mm.Pmm.{Pmm, page_size, bitmap_test, pmm_alloc}
use ded_os.Mm.Pmm.Count.{Usage, mark}
use ded_os.Mm.Pmm.Bits.{IsValid}
use ded_os.Mm.Pmm.Alloc.{Allocated, pmm_alloc-first_fit}

-- A page that was granted: a whole page that was not held before, and is now.
pub record Granted (P : Type 0) (held : P → ℕ → Bool) (available : P → ℕ) (limit : ℕ)
    (IsReady : P → Type 0) (before : P) (r : P × ℕ) : Type 0 where
  pub whole : r.1 % 4096 ≡ 0
  pub some_page : r.1 ≢ 0
  pub bounded : r.1 < limit
  pub was_free : held before (r.1 / 4096) ≡ false
  pub now_held : (j : ℕ) → held r.0 j ≡ (if j == r.1 / 4096 then true else held before j)
  pub fewer : available r.0 + 1 ≡ available before
  pub still_ready : IsReady r.0

-- An allocator: which pages it has given away, and how many are left.
pub record Frames (P : Type 0) (alloc : P → P × ℕ) : Type 1 where
  pub IsReady : P → Type 0
  pub held : P → ℕ → Bool
  pub available : P → ℕ
  pub limit : ℕ
  pub grants :
      (p : P) → IsReady p → 0 < available p → Granted P held available limit IsReady p (alloc p)

-- The bitmap allocator, with page 0 in use and its pages below `limit`.
abbrev pub IsReadyPmm : ℕ → Pmm → Type 0
IsReadyPmm limit s = IsValid s × (bitmap_test s 0 ≡ true) × (s.total_pages * page_size ≤ limit)

not_zero : (u : Usage) (i : ℕ) → u 0 ≡ true → u i ≡ false → i ≢ 0
not_zero u i used free e = ground arith

pub pmm_grants :
    (limit : ℕ) (s : Pmm) {i : ℕ} {r : Pmm × ℕ}
    → IsReadyPmm limit s
    → Allocated s i r
    → Granted Pmm bitmap_test (λ s. s.free_pages) limit (IsReadyPmm limit) s r
pmm_grants limit s {i} {r} (valid, used, small) a = record {
  whole = omega (arith, a.address);
  some_page = λ e. omega (arith, a.address, not_zero (bitmap_test s) i used a.was_free);
  bounded = omega (arith, a.address, a.in_range);
  was_free = rw page a.was_free;
  now_held = λ j. ap (λ (u : Usage). u j) a.usage ∙ unfold mark in ground (arith, page);
  fewer = a.count;
  still_ready = (
    a.valid,
    ap (λ (u : Usage). u 0) a.usage ∙ unfold mark in ground (arith, used),
    rw a.size small,
  );
}
  where
    page : r.1 / 4096 ≡ i
    page = omega (arith, a.address)

abbrev pub pmm_frames : ℕ → Frames Pmm pmm_alloc
pmm_frames limit = record {
  IsReady = IsReadyPmm limit;
  held = bitmap_test;
  available = λ s. s.free_pages;
  limit = limit;
  grants = λ s ready left. pmm_grants limit s ready (pmm_alloc-first_fit ready.0 left).1;
}
