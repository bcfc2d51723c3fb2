-- ===== src/Mm/Pmm/Exhaust.antt =====
-- Successive calls of `pmm_alloc`: no page is handed out twice, and none that was in use.
use ded_os.Base.{
  ℕ, zero, suc, ◌+◌, ◌*◌, ◌/◌, ◌%◌, ◌≤◌, ◌<◌, ◌≡◌, refl, ◌≢◌, false, arith, List, [], ◌∷◌, All,
  length,
}
use ded_os.Mm.Pmm.{Pmm, page_size, bitmap_test, pmm_alloc}
use ded_os.Mm.Pmm.Count.{Usage, mark}
use ded_os.Mm.Pmm.Bits.{IsValid}
use ded_os.Mm.Pmm.Alloc.{Allocated, pmm_alloc-first_fit}

-- The states and results of `n` calls in a row.
pub alloc_many : ℕ → Pmm → Pmm × List ℕ
alloc_many zero s = (s, [])
alloc_many (suc n) s =
    let (s', ptr) = pmm_alloc s in let (s'', ptrs) = alloc_many n s' in (s'', ptr ∷ ptrs)

abbrev pub Distinct : List ℕ → Type 0
Distinct [] = Unit
Distinct (x ∷ xs) = All (λ y. x ≢ y) xs × Distinct xs

-- `ptr` is the address of a page below `total` that `u` has free.
abbrev pub IsFreePage : Usage → ℕ → ℕ → Type 0
IsFreePage u total ptr =
    (ptr % page_size ≡ 0) × (ptr / page_size < total) × (u (ptr / page_size) ≡ false)

-- What `n` calls gave, from the usage `u` with `count` free pages.
pub record Handed (s : Pmm) (n : ℕ) (r : Pmm × List ℕ) : Type 0 where
  pub count : r.0.free_pages + n ≡ s.free_pages
  pub many : length r.1 ≡ n
  pub distinct : Distinct r.1
  pub free : All (IsFreePage (bitmap_test s) s.total_pages) r.1
  pub valid : IsValid r.0

-- A page that is free after page `i` was taken was free before, and is not page `i`.
free_of_mark :
    (u : Usage) (i total ptr : ℕ)
    → IsFreePage (mark u i) total ptr
    → IsFreePage u total ptr × (i * page_size ≢ ptr)
unfolding mark
free_of_mark u i total ptr f = ground arith

All-free_of_mark :
    (u : Usage) (i total : ℕ) (ptrs : List ℕ)
    → All (IsFreePage (mark u i) total) ptrs
    → All (IsFreePage u total) ptrs × All (λ y. i * page_size ≢ y) ptrs
All-free_of_mark u i total [] h = (tt, tt)
All-free_of_mark u i total (p ∷ ptrs) h =
    let (f, ne) = free_of_mark u i total p h.0 in
    let (fs, nes) = All-free_of_mark u i total ptrs h.1 in ((f, fs), (ne, nes))

free_of_Allocated :
    {s : Pmm} {i : ℕ} {r : Pmm × ℕ} → Allocated s i r → IsFreePage (bitmap_test s) s.total_pages r.1
free_of_Allocated {s} {i} {r} a =
    let page : r.1 / page_size ≡ i = omega (arith, a.address) in
    (omega (arith, a.address), rw page a.in_range, rw page a.was_free)

-- On a valid state, `n` calls of `pmm_alloc` in a row, with at least `n` pages free, return the
-- addresses of `n` different pages, all of them free before; the counter falls by `n`, and the state
-- stays valid.
pub alloc_many-Handed :
    (n : ℕ) {s : Pmm} → IsValid s → n ≤ s.free_pages → Handed s n (alloc_many n s)
unfolding alloc_many
alloc_many-Handed zero {s} v h = record {
  count = omega arith;
  many = refl;
  distinct = tt;
  free = tt;
  valid = v;
}
alloc_many-Handed (suc n) {s} v h =
    let (i, a) = pmm_alloc-first_fit v (omega arith) in
    let later = alloc_many-Handed n {s = (pmm_alloc s).0} a.valid (omega (arith, a.count)) in
    let (fs, nes) =
      All-free_of_mark (bitmap_test s) i s.total_pages _ (rw (a.usage, a.size) at later.free) in
    record {
      count = omega (arith, later.count, a.count);
      many = omega (arith, later.many);
      distinct = (rw a.address nes, later.distinct);
      free = (free_of_Allocated a, fs);
      valid = later.valid;
    }
