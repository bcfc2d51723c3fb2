-- ===== src/Mm/Pmm/Init.antt =====
-- `pmm_init` of pmm.c as a whole: which pages it leaves free, and its counter.
use ded_os.Base.{
  ℕ, ◌+◌, ◌/◌, ◌^◌, ◌≤◌, ◌<◌, ◌≡◌, refl, ◌∙◌, ap, Bool, true, false, not, ◌&&◌, ◌||◌, arith, ◌==◌,
  if◌then◌else◌, List, All, some,
}
use ded_os.Base.Word.{add64}
use ded_os.Mm.Pmm.{
  Pmm, Entry, page_size, bitmap_test, highest_end, measured, populate, bitmap_pages, bitmap_base,
  fill_bitmap, release_usable, claim_pages, pmm_init,
}
use ded_os.Mm.Pmm.Bits.{IsBytes, IsValid}
use ded_os.Mm.Pmm.Loops.{
  in_range, in_entry, in_usable, Disjoint, Becomes, claim_pages-Becomes, release_usable-Becomes,
}
use ded_os.Mm.Pmm.Fill.{fill_bitmap-Becomes}
use ded_os.Mm.Pmm.Map.{
  IsPaged, first_fit, highest_end-lt, in_usable-lt, place_bitmap-first_fit, first_fit-in_usable,
}

module _ (usable : ℕ) where
  -- The memory map that `pmm_init` is handed, and the state it starts from.
  pub record Boot (es : List Entry) (hhdm : ℕ) (s : Pmm) : Type 0 where
    pub bytes : IsBytes s.mem
    pub none_free : s.free_pages ≡ 0
    pub paged : All (IsPaged usable hhdm) es
    pub disjoint : Disjoint usable es
    pub offset : hhdm < 2 ^ 64

  -- Pages in use after `pmm_init`: those of no usable entry, and those of the bitmap in `e`.
  abbrev pub initial_usage : List Entry → Entry → ℕ → ℕ → Bool
  initial_usage es e size j =
      in_range (e.base / page_size) ((size + 4095) / page_size) j || not (in_usable usable es j)

  module _ {es : List Entry} {hhdm : ℕ} {s : Pmm} (b : Boot es hhdm s) {e : Entry}
      (found : first_fit usable (measured usable es hhdm s).bitmap_size es ≡ some e) where
    placed : Pmm
    unfolding measured
    placed = record (measured usable es hhdm s) { bitmap = add64 e.base hhdm }

    filled : Pmm
    unfolding placed
    filled = fill_bitmap placed.bitmap_size 0 placed

    released : Pmm
    unfolding filled
    released = release_usable usable es filled

    total_pages-lt : highest_end usable es 0 / page_size < 2 ^ 52
    total_pages-lt = omega (arith, highest_end-lt usable es 0 (omega arith))

    filled-Becomes :
        Becomes placed (bitmap_test filled) filled
        × ((j : ℕ) → j < placed.total_pages → bitmap_test filled j ≡ true)
    unfolding filled measured
    filled-Becomes =
        fill_bitmap-Becomes {s = placed} b.bytes total_pages-lt (omega (arith, total_pages-lt))
          b.none_free

    in_usable-filled : (j : ℕ) → in_usable usable es j ≡ true → j < filled.total_pages
    unfolding measured placed
    in_usable-filled j h =
        omega (arith, in_usable-lt usable hhdm es 0 j b.paged h, filled-Becomes.0.total)

    released-Becomes :
        Becomes filled (λ j. not (in_usable usable es j) && bitmap_test filled j) released
    unfolding released measured
    released-Becomes =
        release_usable-Becomes usable es {s = filled} filled-Becomes.0.valid b.disjoint λ j h. (
          in_usable-filled j h,
          filled-Becomes.1 j (omega (arith, in_usable-filled j h, filled-Becomes.0.total)),
        )

    in_bitmap : ℕ → Bool
    unfolding measured
    in_bitmap =
        in_range (e.base / page_size) (((measured usable es hhdm s).bitmap_size + 4095) / page_size)

    facts :
        (e.kind ≡ usable)
        × IsPaged usable hhdm e
        × ((measured usable es hhdm s).bitmap_size ≤ e.size)
        × ((j : ℕ) → in_entry usable e j ≡ true → in_usable usable es j ≡ true)
    facts = first_fit-in_usable usable hhdm es _ b.paged found

    pages_eq : bitmap_pages released ≡ ((measured usable es hhdm s).bitmap_size + 4095) / page_size
    unfolding measured bitmap_pages placed
    pages_eq = omega (arith, released-Becomes.extent, filled-Becomes.0.extent, total_pages-lt)

    base_eq : bitmap_base released ≡ e.base / page_size
    unfolding measured bitmap_base placed
    base_eq = omega (
      arith,
      released-Becomes.place,
      filled-Becomes.0.place,
      released-Becomes.offset,
      filled-Becomes.0.offset,
      facts.1 facts.0,
      b.offset,
    )

    in_bitmap-in_usable : (j : ℕ) → in_bitmap j ≡ true → in_usable usable es j ≡ true
    unfolding in_bitmap
    in_bitmap-in_usable j h = facts.3 j (ground (arith, facts.0, facts.2, facts.1))

    claimed-Becomes :
        Becomes released
          (λ j. in_bitmap j || bitmap_test released j)
          (claim_pages (bitmap_pages released) (bitmap_base released) released)
    unfolding in_bitmap
    claimed-Becomes =
        rw (pages_eq, base_eq)
          (claim_pages-Becomes _ _ released-Becomes.valid λ j h.
            let inside = in_bitmap-in_usable j h in
            (
              omega (arith, in_usable-filled j inside, released-Becomes.total),
              released-Becomes.usage j ∙ rw inside,
            ))

    placed_ne_null : (placed.bitmap == 0) ≡ false
    unfolding placed measured
    placed_ne_null = ground (arith, facts.0, facts.1)

    pmm_init_eq :
        pmm_init usable es hhdm s
        ≡ claim_pages (bitmap_pages released) (bitmap_base released) released
    unfolding pmm_init released measured
    pmm_init_eq =
        ap (λ (p : Pmm). if p.bitmap == 0 then p else populate usable es p)
          (place_bitmap-first_fit usable es (measured usable es hhdm s) found)
        ∙ rw placed_ne_null refl

    placed_total : placed.total_pages ≡ highest_end usable es 0 / page_size
    unfolding placed measured
    placed_total = refl

    usage_at :
        (j : ℕ)
        → j < filled.total_pages
        → (in_bitmap j || bitmap_test released j)
          ≡ initial_usage es e (measured usable es hhdm s).bitmap_size j
    unfolding in_bitmap
    usage_at j h = ground (
      arith,
      released-Becomes.usage j,
      filled-Becomes.1 j (omega (arith, filled-Becomes.0.total)),
    )

    -- With no page counted before, usable entries of whole pages that do not overlap, and a first entry
    -- that has room for the bitmap at an address other than 0, `pmm_init` leaves a valid state: in use
    -- are exactly the pages of no usable entry and those of the bitmap, and the counter is the number
    -- of the others.
    pub pmm_init-IsValid :
        let r = pmm_init usable es hhdm s in
        IsValid r
        × (r.total_pages ≡ highest_end usable es 0 / page_size)
        × ((j : ℕ)
            → j < r.total_pages
            → bitmap_test r j ≡ initial_usage es e (measured usable es hhdm s).bitmap_size j)
    pmm_init-IsValid = rw pmm_init_eq (
      claimed-Becomes.valid,
      claimed-Becomes.total ∙ released-Becomes.total ∙ filled-Becomes.0.total ∙ placed_total,
      λ j h.
          claimed-Becomes.usage j
          ∙ usage_at j (omega (arith, claimed-Becomes.total, released-Becomes.total)),
    )
