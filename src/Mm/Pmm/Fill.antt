-- ===== src/Mm/Pmm/Fill.antt =====
-- The loop of `pmm_init` in kernel/src/mm/pmm.c that sets every bit of the bitmap.
use ded_os.Base.{ℕ, zero, suc, ◌+◌, ◌*◌, ◌/◌, ◌%◌, ◌^◌, ◌≤◌, ◌<◌, ◌≡◌, refl, true, arith, ltb, leb}
use ded_os.Base.Memory.{update}
use ded_os.Base.BitOps.{test_bit_ones}
use ded_os.Mm.Pmm.{Pmm, bitmap_test, fill_bitmap}
use ded_os.Mm.Pmm.Count.{count_free, count_free-full}
use ded_os.Mm.Pmm.Bits.{IsBytes, IsBytes-update}
use ded_os.Mm.Pmm.Loops.{Becomes}

-- The bitmap of `n` bytes is filled from byte `i` on; all else stays.
record Filled (i n : ℕ) (s s' : Pmm) : Type 0 where
  ones : (a : ℕ) → leb (s.bitmap + i) a ≡ true → ltb a (s.bitmap + i + n) ≡ true → s'.mem a ≡ 255
  bytes : IsBytes s'.mem
  total : s'.total_pages ≡ s.total_pages
  place : s'.bitmap ≡ s.bitmap
  offset : s'.hhdm_offset ≡ s.hhdm_offset
  extent : s'.bitmap_size ≡ s.bitmap_size
  free : s'.free_pages ≡ s.free_pages
  before : (a : ℕ) → ltb a (s.bitmap + i) ≡ true → s'.mem a ≡ s.mem a

fill_bitmap-Filled : (n i : ℕ) {s : Pmm} → IsBytes s.mem → Filled i n s (fill_bitmap n i s)
unfolding fill_bitmap update
fill_bitmap-Filled zero i {s} bytes = record {
  ones = λ a h l. ground arith;
  bytes = bytes;
  total = refl;
  place = refl;
  offset = refl;
  extent = refl;
  free = refl;
  before = λ a h. refl;
}
fill_bitmap-Filled (suc n) i {s} bytes =
    let one : Pmm = record s { mem = update s.mem (s.bitmap + i) 0xFF } in
    let rest =
      fill_bitmap-Filled n (i + 1) {s = one} (IsBytes-update s.mem _ _ bytes (omega arith)) in
    record {
      ones = λ a h l. ground (arith, rest.ones a, rest.before a);
      bytes = rest.bytes;
      total = rest.total;
      place = rest.place;
      offset = rest.offset;
      extent = rest.extent;
      free = rest.free;
      before = λ a h. ground (arith, rest.before a);
    }

-- A bitmap of ones that covers every page: all of them are in use, and none is counted as free.
pub fill_bitmap-Becomes :
    {s : Pmm}
    → IsBytes s.mem
    → s.total_pages < 2 ^ 52
    → s.total_pages ≤ 8 * s.bitmap_size
    → s.free_pages ≡ 0
    → let s' = fill_bitmap s.bitmap_size 0 s in
      Becomes s (bitmap_test s') s' × ((j : ℕ) → j < s.total_pages → bitmap_test s' j ≡ true)
unfolding bitmap_test
fill_bitmap-Becomes {s} bytes small covered none_free = (
  record {
    valid = record {
      bytes = f.bytes;
      addressable = omega (arith, f.total);
      counted = omega (arith, f.total, f.free, no_free);
    };
    total = f.total;
    place = f.place;
    offset = f.offset;
    extent = f.extent;
    usage = λ j. refl;
  },
  all_used,
)
  where
    f : Filled 0 s.bitmap_size s (fill_bitmap s.bitmap_size 0 s)
    f = fill_bitmap-Filled s.bitmap_size 0 bytes

    all_used : (j : ℕ) → j < s.total_pages → bitmap_test (fill_bitmap s.bitmap_size 0 s) j ≡ true
    all_used j h =
        ground (arith, f.ones (s.bitmap + j / 8), f.place, test_bit_ones (j % 8) (omega arith))

    no_free :
        count_free
          (bitmap_test (fill_bitmap s.bitmap_size 0 s))
          (fill_bitmap s.bitmap_size 0 s).total_pages
        ≡ 0
    no_free = count_free-full _ _ (λ j h. all_used j (omega (arith, f.total)))
