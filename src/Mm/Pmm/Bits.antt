-- ===== src/Mm/Pmm/Bits.antt =====
-- The bitmap of pmm.c as a set of pages: what BITMAP_SET and BITMAP_CLEAR do to BITMAP_TEST.
use mathlib.Core.Path.{fun_ext}
use ded_os.Base.{ℕ, ◌+◌, ◌/◌, ◌%◌, ◌^◌, ◌≤◌, ◌<◌, ◌≡◌, refl, true, false, arith}
use ded_os.Base.Memory.{update}
use ded_os.Base.BitOps.{test_bit-set_bit, test_bit-clear_bit, set_bit-lt, clear_bit-lt}
use ded_os.Mm.Pmm.{Pmm, bitmap_test, bitmap_set, bitmap_clear, claim, release}
use ded_os.Mm.Pmm.Count.{
  mark, unmark, count_free, count_free-le, count_free-mark, count_free-unmark,
}

abbrev pub IsBytes : (ℕ → ℕ) → Type 0
IsBytes m = (a : ℕ) → m a < 256

pub IsBytes-update : (m : ℕ → ℕ) (p v : ℕ) → IsBytes m → v < 256 → IsBytes (update m p v)
unfolding update
IsBytes-update m p v b h a = ground (arith, b a)

module _ (s : Pmm) (bytes : IsBytes s.mem) (i : ℕ) where
  pub IsBytes-bitmap_set : IsBytes (bitmap_set s i).mem
  unfolding bitmap_set
  IsBytes-bitmap_set =
      IsBytes-update _ _ _ bytes (set_bit-lt _ _ (bytes (s.bitmap + i / 8)) (omega arith))

  pub IsBytes-bitmap_clear : IsBytes (bitmap_clear s i).mem
  unfolding bitmap_clear
  IsBytes-bitmap_clear =
      IsBytes-update _ _ _ bytes (clear_bit-lt _ _ (bytes (s.bitmap + i / 8)) (omega arith))

  test-set_at : (j : ℕ) → bitmap_test (bitmap_set s i) j ≡ mark (bitmap_test s) i j
  unfolding bitmap_test bitmap_set mark update
  test-set_at j = ground (
    arith,
    test_bit-set_bit (s.mem (s.bitmap + i / 8)) (i % 8) (j % 8) (bytes _) (omega arith)
        (omega arith),
  )

  pub bitmap_test-bitmap_set : bitmap_test (bitmap_set s i) ≡ mark (bitmap_test s) i
  bitmap_test-bitmap_set = fun_ext test-set_at

  test-clear_at : (j : ℕ) → bitmap_test (bitmap_clear s i) j ≡ unmark (bitmap_test s) i j
  unfolding bitmap_test bitmap_clear unmark update
  test-clear_at j = ground (
    arith,
    test_bit-clear_bit (s.mem (s.bitmap + i / 8)) (i % 8) (j % 8) (bytes _) (omega arith)
        (omega arith),
  )

  pub bitmap_test-bitmap_clear : bitmap_test (bitmap_clear s i) ≡ unmark (bitmap_test s) i
  bitmap_test-bitmap_clear = fun_ext test-clear_at

-- `claim` and `release` leave everything but the bit and the counter alone.
pub bitmap_test-claim :
    (s : Pmm) (i : ℕ) → IsBytes s.mem → bitmap_test (claim s i) ≡ mark (bitmap_test s) i
unfolding claim bitmap_test
bitmap_test-claim s i bytes = bitmap_test-bitmap_set s bytes i

pub bitmap_test-release :
    (s : Pmm) (i : ℕ) → IsBytes s.mem → bitmap_test (release s i) ≡ unmark (bitmap_test s) i
unfolding release bitmap_test
bitmap_test-release s i bytes = bitmap_test-bitmap_clear s bytes i

pub total_pages-claim : (s : Pmm) (i : ℕ) → (claim s i).total_pages ≡ s.total_pages
unfolding claim bitmap_set
total_pages-claim s i = refl

pub total_pages-release : (s : Pmm) (i : ℕ) → (release s i).total_pages ≡ s.total_pages
unfolding release bitmap_clear
total_pages-release s i = refl

-- What holds of the allocator between two calls: the bitmap is made of bytes, the pages are
-- addressable, and `free_pages` counts the clear bits.
pub record IsValid (s : Pmm) : Type 0 where
  pub bytes : IsBytes s.mem
  pub addressable : s.total_pages < 2 ^ 52
  pub counted : s.free_pages ≡ count_free (bitmap_test s) s.total_pages

pub claim-IsValid :
    {s : Pmm} (i : ℕ)
    → IsValid s
    → i < s.total_pages
    → bitmap_test s i ≡ false
    → IsValid (claim s i)
unfolding claim bitmap_set
claim-IsValid {s} i v h free = record {
  bytes = IsBytes-bitmap_set s v.bytes i;
  addressable = v.addressable;
  counted =
      rw (bitmap_test-claim s i v.bytes)
        (omega (arith, count_free-mark (bitmap_test s) i s.total_pages h free, room));
}
  where
    room : count_free (bitmap_test s) s.total_pages ≤ s.total_pages
    room = count_free-le (bitmap_test s) s.total_pages

pub release-IsValid :
    {s : Pmm} (i : ℕ)
    → IsValid s
    → i < s.total_pages
    → bitmap_test s i ≡ true
    → IsValid (release s i)
unfolding release bitmap_clear
release-IsValid {s} i v h used = record {
  bytes = IsBytes-bitmap_clear s v.bytes i;
  addressable = v.addressable;
  counted =
      rw (bitmap_test-release s i v.bytes)
        (omega (arith, count_free-unmark (bitmap_test s) i s.total_pages h used, room));
}
  where
    room : count_free (bitmap_test s) s.total_pages ≤ s.total_pages
    room = count_free-le (bitmap_test s) s.total_pages
