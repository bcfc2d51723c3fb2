-- ===== src/Mm/Pmm/Alloc.antt =====
-- `pmm_alloc` and `pmm_free` of pmm.c: first fit, the counter, and that each undoes the other.
use ded_os.Base.{
  ap, ℕ, zero, suc, ◌+◌, ◌*◌, ◌/◌, ◌≤◌, ◌<◌, ◌≡◌, refl, sym, ◌∙◌, ◌⊎◌, inl, inr, true, false, arith,
  ◌==◌, ==_self, ==_iff, if◌then◌else◌, Bool-cases,
}
use ded_os.Base.Word.{mul64}
use ded_os.Mm.Pmm.{Pmm, page_size, bitmap_test, claim, release, alloc_from, pmm_alloc, pmm_free}
use ded_os.Mm.Pmm.Count.{
  Usage, mark, unmark, count_free-mark, count_free-le, count_free-full, full_of_count_free,
  unmark_free, unmark-mark,
}
use ded_os.Mm.Pmm.Bits.{
  IsValid, bitmap_test-claim, bitmap_test-release, total_pages-claim, claim-IsValid,
  release-IsValid,
}

true_ne_false : true ≡ false → ⊥
true_ne_false h = cc

-- The loop stopped at page `j`, the first clear bit from `i` on.
abbrev StopsAt : ℕ → ℕ → ℕ → Pmm → Type 0
StopsAt n i j s =
    (i ≤ j)
    × (j < i + n)
    × (bitmap_test s j ≡ false)
    × ((k : ℕ) → i ≤ k → k < j → bitmap_test s k ≡ true)
    × (alloc_from n i s ≡ (claim s j, mul64 j page_size))

abbrev Exhausts : ℕ → ℕ → Pmm → Type 0
Exhausts n i s =
    ((k : ℕ) → i ≤ k → k < i + n → bitmap_test s k ≡ true) × (alloc_from n i s ≡ (s, 0))

used_from :
    (s : Pmm) (i j : ℕ)
    → bitmap_test s i ≡ true
    → ((k : ℕ) → i + 1 ≤ k → k < j → bitmap_test s k ≡ true)
    → (k : ℕ) → i ≤ k
    → k < j
    → bitmap_test s k ≡ true
used_from s i j here later k h l = elim (Bool-cases (k == i)) [
  | inl e ↦ let e' : k ≡ i = (==_iff k i).0 e in rw e' here
  | inr e ↦ later k (ground arith) l
]

alloc_from-outcome : (n i : ℕ) (s : Pmm) → ((j : ℕ) × (StopsAt n i j s)) ⊎ (Exhausts n i s)
unfolding alloc_from
alloc_from-outcome zero i s = inr ((λ k h l. absurd (omega arith)), refl)
alloc_from-outcome (suc n) i s = elim (Bool-cases (bitmap_test s i)) [
  | inr free ↦ inl (i, (omega arith, omega arith, free, (λ k h l. absurd (omega arith)), rw free))
  | inl used ↦ elim (alloc_from-outcome n (i + 1) s) [
    | inl (j, (h, l, free, before, e)) ↦
        inl (j, (omega arith, omega arith, free, used_from s i j used before, rw used e))
    | inr (all, e) ↦
        inr ((λ k h l. used_from s i (i + 1 + n) used all k h (omega arith)), rw used e)
  ]
]

-- Page `i` went from the free pages of `s` to the caller.
pub record Allocated (s : Pmm) (i : ℕ) (r : Pmm × ℕ) : Type 0 where
  pub in_range : i < s.total_pages
  pub was_free : bitmap_test s i ≡ false
  pub first : (j : ℕ) → j < i → bitmap_test s j ≡ true
  pub address : r.1 ≡ i * page_size
  pub usage : bitmap_test r.0 ≡ mark (bitmap_test s) i
  pub count : r.0.free_pages + 1 ≡ s.free_pages
  pub valid : IsValid r.0
  pub size : r.0.total_pages ≡ s.total_pages

free_pages-claim :
    {s : Pmm} (i : ℕ)
    → IsValid s
    → i < s.total_pages
    → bitmap_test s i ≡ false
    → (claim s i).free_pages + 1 ≡ s.free_pages
unfolding claim
free_pages-claim {s} i v h free = omega (
  arith,
  count_free-mark (bitmap_test s) i s.total_pages h free,
  count_free-le (bitmap_test s) s.total_pages,
  v.counted,
  v.addressable,
)

free_pages-release :
    {s : Pmm} (i : ℕ)
    → IsValid s
    → i < s.total_pages
    → bitmap_test s i ≡ true
    → (release s i).free_pages ≡ s.free_pages + 1
unfolding release
free_pages-release {s} i v h used =
    omega (arith, count_free-le (bitmap_test s) s.total_pages, v.counted, v.addressable)

claim-Allocated :
    {s : Pmm} (i : ℕ)
    → IsValid s
    → i < s.total_pages
    → bitmap_test s i ≡ false
    → ((j : ℕ) → j < i → bitmap_test s j ≡ true)
    → Allocated s i (claim s i, mul64 i page_size)
claim-Allocated {s} i v h free before = record {
  in_range = h;
  was_free = free;
  first = before;
  address = omega (arith, v.addressable);
  usage = bitmap_test-claim s i v.bytes;
  count = free_pages-claim i v h free;
  valid = claim-IsValid i v h free;
  size = total_pages-claim s i;
}

-- On a valid state with a free page left, `pmm_alloc` marks the lowest free page, and no other, as
-- used, returns its address, takes one off the counter and leaves a valid state.
pub pmm_alloc-first_fit :
    {s : Pmm} → IsValid s → 0 < s.free_pages → (i : ℕ) × (Allocated s i (pmm_alloc s))
unfolding pmm_alloc
pmm_alloc-first_fit {s} v some_free = elim (alloc_from-outcome s.total_pages 0 s) [
  | inl (j, (h, l, free, before, e)) ↦
      (j, rw e (claim-Allocated j v (omega arith) free (λ k lt. before k (omega arith) lt)))
  | inr (all, e) ↦ absurd (
      omega (
        arith,
        count_free-full (bitmap_test s) s.total_pages (λ j h. all j (omega arith) (omega arith)),
        v.counted,
      ))
]

-- On a valid state with no free page `pmm_alloc` returns 0 and changes nothing.
pub pmm_alloc-full : {s : Pmm} → IsValid s → s.free_pages ≡ 0 → pmm_alloc s ≡ (s, 0)
unfolding pmm_alloc
pmm_alloc-full {s} v none_free = elim (alloc_from-outcome s.total_pages 0 s) [
  | inl (j, (h, l, free, before, e)) ↦ absurd (
      true_ne_false (
        sym (full_of_count_free (bitmap_test s) s.total_pages j (omega arith) (omega arith))
        ∙ free))
  | inr (all, e) ↦ e
]

-- On a valid state `pmm_free` of an address in a page of the bitmap leaves a valid state: the page is
-- free afterwards, no other page changes, and the counter grows by one only if it was in use.
pub pmm_free_lem :
    {s : Pmm} (ptr : ℕ)
    → IsValid s
    → ptr / page_size < s.total_pages
    → IsValid (pmm_free s ptr)
      × (bitmap_test (pmm_free s ptr) ≡ unmark (bitmap_test s) (ptr / page_size))
      × ((pmm_free s ptr).free_pages
          ≡ s.free_pages + (if bitmap_test s (ptr / page_size) then 1 else 0))
unfolding pmm_free
pmm_free_lem {s} ptr v h = elim (Bool-cases (bitmap_test s (ptr / page_size))) [
  | inl used ↦
      rw used
        (release-IsValid _ v h used, bitmap_test-release s _ v.bytes, free_pages-release _ v h used)
  | inr free ↦ rw free (v, sym (unmark_free (bitmap_test s) _ free), omega arith)
]

mark_self : (u : Usage) (i : ℕ) → mark u i i ≡ true
unfolding mark
mark_self u i = rw (==_self i)

free-Allocated :
    {s : Pmm} {i : ℕ} {r : Pmm × ℕ}
    → Allocated s i r
    → (bitmap_test (pmm_free r.0 r.1) ≡ bitmap_test s)
      × ((pmm_free r.0 r.1).free_pages ≡ s.free_pages)
      × IsValid (pmm_free r.0 r.1)
free-Allocated {s} {i} {r} a =
    let page : r.1 / page_size ≡ i = omega (arith, a.address) in
    let (valid, usage, count) =
      pmm_free_lem {s = r.0} r.1 a.valid (omega (arith, a.size, a.in_range)) in
    (
      usage ∙ rw (page, a.usage) (unmark-mark (bitmap_test s) i a.was_free),
      count ∙ rw (page, a.usage, mark_self (bitmap_test s) i) a.count,
      valid,
    )

-- On a valid state with a free page left, freeing what `pmm_alloc` returned gives back the state: the
-- same pages are in use, as many are free, and the state is valid.
pub pmm_free-pmm_alloc :
    {s : Pmm}
    → IsValid s
    → 0 < s.free_pages
    → let (s', ptr) = pmm_alloc s in
      (bitmap_test (pmm_free s' ptr) ≡ bitmap_test s)
      × ((pmm_free s' ptr).free_pages ≡ s.free_pages)
      × IsValid (pmm_free s' ptr)
pmm_free-pmm_alloc {s} v some_free = free-Allocated (pmm_alloc-first_fit v some_free).1

pub free_pages_pos :
    {s : Pmm} {i : ℕ} → IsValid s → i < s.total_pages → bitmap_test s i ≡ false → 0 < s.free_pages
free_pages_pos {s} {i} v h free =
    omega (arith, count_free-mark (bitmap_test s) i s.total_pages h free, v.counted)

-- A valid state whose page 0 is free and a valid state without a free page cannot be told apart by what
-- `pmm_alloc` returns, 0 both times; yet in the first it marks page 0 as used and takes one from the
-- counter, and in the second it changes nothing.
pub pmm_alloc-page_zero :
    {s full : Pmm}
    → IsValid s
    → IsValid full
    → 0 < s.total_pages
    → bitmap_test s 0 ≡ false
    → full.free_pages ≡ 0
    → ((pmm_alloc s).1 ≡ (pmm_alloc full).1)
      × (bitmap_test (pmm_alloc s).0 0 ≡ true)
      × ((pmm_alloc s).0.free_pages + 1 ≡ s.free_pages)
      × ((pmm_alloc full).0 ≡ full)
pmm_alloc-page_zero {s} {full} v v' h free none_free =
    let failed = pmm_alloc-full v' none_free in
    let (zero_address, marked, counted) =
      at_zero (pmm_alloc-first_fit v (free_pages_pos v h free)) in
    (zero_address ∙ sym (ap (λ r. r.1) failed), marked, counted, ap (λ r. r.0) failed)
  where
    at_zero :
        (i : ℕ) × (Allocated s i (pmm_alloc s))
        → ((pmm_alloc s).1 ≡ 0)
          × (bitmap_test (pmm_alloc s).0 0 ≡ true)
          × ((pmm_alloc s).0.free_pages + 1 ≡ s.free_pages)
    at_zero (zero, a) =
        (omega (arith, a.address), rw a.usage (mark_self (bitmap_test s) 0), a.count)
    at_zero (suc i, a) = absurd (true_ne_false (sym (a.first 0 (omega arith)) ∙ free))
