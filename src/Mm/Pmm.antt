-- ===== src/Mm/Pmm.antt =====
-- The physical page allocator, kernel/src/mm/pmm.c: a bitmap with one bit for each page, set when
-- the page is in use. The bitmap lies in memory at the pointer `bitmap`; the file's static
-- variables are the fields of `Pmm`. The boot loader's memory map is a list of entries, and the
-- value of LIMINE_MEMMAP_USABLE, which limine.h defines, is a parameter.
pub mod Count
pub mod Bits
pub mod Alloc
pub mod Exhaust
pub mod Loops
pub mod Fill
pub mod Map
pub mod Init
mod Tests
use ded_os.Base.{
  ℕ, zero, suc, ◌+◌, ◌-◌, ◌*◌, ◌/◌, ◌%◌, ◌^◌, Bool, true, false, ◌&&◌, List, [], ◌∷◌, ltb, leb,
  ◌==◌, if◌then◌else◌,
}
use ded_os.Base.Word.{add64, sub64, mul64}
use ded_os.Base.Memory.{update}
use ded_os.Base.BitOps.{set_bit, clear_bit, test_bit}

abbrev pub page_size : ℕ
page_size = 4096

pub record Pmm : Type 0 where
  pub bitmap : ℕ
  pub total_pages : ℕ
  pub free_pages : ℕ
  pub bitmap_size : ℕ
  pub hhdm_offset : ℕ
  pub mem : ℕ → ℕ

-- `struct limine_memmap_entry`.
pub record Entry : Type 0 where
  pub base : ℕ
  pub size : ℕ
  pub kind : ℕ

-- `bitmap[bit / 8]`, and the macros BITMAP_TEST, BITMAP_SET and BITMAP_CLEAR.
pub byte_of : Pmm → ℕ → ℕ
byte_of s bit = s.mem (s.bitmap + bit / 8)

unfoldable pub bitmap_test : Pmm → ℕ → Bool
unfolding byte_of
bitmap_test s bit = test_bit (byte_of s bit) (bit % 8)

unfoldable pub bitmap_set : Pmm → ℕ → Pmm
unfolding byte_of
bitmap_set s bit = record s {
  mem = update s.mem (s.bitmap + bit / 8) (set_bit (byte_of s bit) (bit % 8));
}

unfoldable pub bitmap_clear : Pmm → ℕ → Pmm
unfolding byte_of
bitmap_clear s bit = record s {
  mem = update s.mem (s.bitmap + bit / 8) (clear_bit (byte_of s bit) (bit % 8));
}

-- BITMAP_SET(i); free_pages--;
unfoldable pub claim : Pmm → ℕ → Pmm
claim s i = record (bitmap_set s i) { free_pages = sub64 s.free_pages 1 }

-- BITMAP_CLEAR(i); free_pages++;
unfoldable pub release : Pmm → ℕ → Pmm
release s i = record (bitmap_clear s i) { free_pages = add64 s.free_pages 1 }

-- The loop of `pmm_alloc`, with `n` rounds left at page `i`.
pub alloc_from : ℕ → ℕ → Pmm → Pmm × ℕ
alloc_from zero i s = (s, 0)
alloc_from (suc n) i s =
    let rest = alloc_from n (i + 1) s in
    if bitmap_test s i then rest else (claim s i, mul64 i page_size)

unfoldable pub pmm_alloc : Pmm → Pmm × ℕ
unfolding alloc_from
pmm_alloc s = alloc_from s.total_pages 0 s

unfoldable pub pmm_free : Pmm → ℕ → Pmm
pmm_free s ptr = let page = ptr / page_size in if bitmap_test s page then release s page else s

unfoldable pub pmm_free_pages : Pmm → ℕ
pmm_free_pages s = s.free_pages

unfoldable pub pmm_total_pages : Pmm → ℕ
pmm_total_pages s = s.total_pages

module _ (usable : ℕ) where
  -- The end of the highest usable entry.
  pub highest_end : List Entry → ℕ → ℕ
  highest_end [] highest = highest
  highest_end (e ∷ es) highest = highest_end es (
      if e.kind == usable && ltb highest (add64 e.base e.size)
      then add64 e.base e.size
      else highest)

  -- The first usable entry that holds the bitmap.
  pub place_bitmap : List Entry → Pmm → Pmm
  place_bitmap [] s = s
  place_bitmap (e ∷ es) s =
      let rest = place_bitmap es s in
      if e.kind == usable && leb s.bitmap_size e.size
      then record s { bitmap = add64 e.base s.hhdm_offset }
      else rest

-- `for (i = 0; i < bitmap_size; i++) bitmap[i] = 0xFF;` with `n` rounds left.
pub fill_bitmap : ℕ → ℕ → Pmm → Pmm
fill_bitmap zero i s = s
fill_bitmap (suc n) i s =
    fill_bitmap n (i + 1) (record s { mem = update s.mem (s.bitmap + i) 0xFF })

-- The pages from `page` on are freed, `n` of them.
pub release_pages : ℕ → ℕ → Pmm → Pmm
release_pages zero page s = s
release_pages (suc n) page s = release_pages n (page + 1) (release s page)

pub release_usable : ℕ → List Entry → Pmm → Pmm
unfolding release_pages
release_usable usable [] s = s
release_usable usable (e ∷ es) s =
    release_usable usable es
      (if e.kind == usable then release_pages (e.size / page_size) (e.base / page_size) s else s)

pub claim_pages : ℕ → ℕ → Pmm → Pmm
claim_pages zero page s = s
claim_pages (suc n) page s = claim_pages n (page + 1) (claim s page)

-- `(bitmap_size + PAGE_SIZE - 1) / PAGE_SIZE`, and the first page of the bitmap.
unfoldable pub bitmap_pages : Pmm → ℕ
bitmap_pages s = sub64 (add64 s.bitmap_size page_size) 1 / page_size

unfoldable pub bitmap_base : Pmm → ℕ
bitmap_base s = sub64 s.bitmap s.hhdm_offset / page_size

-- The sizes that `pmm_init` computes before it looks for a place.
pub measured : ℕ → List Entry → ℕ → Pmm → Pmm
unfolding highest_end
measured usable es hhdm s =
    let pages = highest_end usable es 0 / page_size in
    record s { hhdm_offset = hhdm; total_pages = pages; bitmap_size = add64 pages 7 / 8 }

-- What `pmm_init` does once the bitmap has a place.
pub populate : ℕ → List Entry → Pmm → Pmm
unfolding fill_bitmap release_usable claim_pages bitmap_pages bitmap_base
populate usable es s =
    let s' = release_usable usable es (fill_bitmap s.bitmap_size 0 s) in
    claim_pages (bitmap_pages s') (bitmap_base s') s'

unfoldable pub pmm_init : ℕ → List Entry → ℕ → Pmm → Pmm
unfolding measured place_bitmap populate
pmm_init usable es hhdm s =
    let placed = place_bitmap usable es (measured usable es hhdm s) in
    if placed.bitmap == 0 then placed else populate usable es placed
