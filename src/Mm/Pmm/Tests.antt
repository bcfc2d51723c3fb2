-- ===== src/Mm/Pmm/Tests.antt =====
-- pmm.c run on a map of two usable entries and one that is not, and the theorems at that machine.
use ded_os.Base.{ℕ, ◌+◌, ◌*◌, ◌/◌, ◌<◌, ◌≡◌, refl, true, arith, ◌==◌, List, [], ◌∷◌, if◌then◌else◌}
use ded_os.Base.Memory.{update}
use ded_os.Base.BitOps.{test_bit, set_bit, clear_bit}
use ded_os.Mm.Pmm.{
  Pmm, Entry, page_size, bitmap_set, bitmap_clear, claim, release, bitmap_test, pmm_alloc, pmm_free,
  pmm_init, measured, highest_end,
}
use ded_os.Mm.Pmm.Count.{count_free}
use ded_os.Mm.Pmm.Bits.{IsValid}
use ded_os.Mm.Pmm.Alloc.{Allocated, pmm_alloc-first_fit, pmm_free-pmm_alloc, pmm_alloc-page_zero}
use ded_os.Mm.Pmm.Exhaust.{Handed, alloc_many, alloc_many-Handed}
use ded_os.Mm.Pmm.Init.{Boot, initial_usage, pmm_init-IsValid}

-- Three pages in use out of eight, at a bitmap of one byte: pages 1, 2 and 4.
abbrev machine : Pmm
machine = record {
  bitmap = 100;
  total_pages = 8;
  free_pages = 5;
  bitmap_size = 1;
  hhdm_offset = 0;
  mem = λ a. if a == 100 then 22 else 0;
}

machine-IsValid : IsValid machine
unfolding bitmap_test count_free test_bit
machine-IsValid = record { bytes = λ a. ground arith; addressable = omega arith; counted = refl }

first_free : (pmm_alloc (pmm_alloc machine).0).1 ≡ 3 * page_size
unfolding pmm_alloc bitmap_test bitmap_set claim test_bit set_bit update
first_free = refl

pmm_alloc-first_fit_example : (i : ℕ) × (Allocated machine i (pmm_alloc machine))
pmm_alloc-first_fit_example = pmm_alloc-first_fit machine-IsValid (omega arith)

pmm_free-pmm_alloc_example :
    let (s', ptr) = pmm_alloc machine in
    (bitmap_test (pmm_free s' ptr) ≡ bitmap_test machine)
    × ((pmm_free s' ptr).free_pages ≡ 5)
    × IsValid (pmm_free s' ptr)
pmm_free-pmm_alloc_example = pmm_free-pmm_alloc machine-IsValid (omega arith)

-- The same machine with all eight pages in use.
abbrev full_machine : Pmm
full_machine = record machine { free_pages = 0; mem = λ a. if a == 100 then 255 else 0 }

full_machine-IsValid : IsValid full_machine
unfolding bitmap_test count_free test_bit
full_machine-IsValid = record {
  bytes = λ a. ground arith;
  addressable = omega arith;
  counted = refl;
}

pmm_alloc-page_zero_example :
    ((pmm_alloc machine).1 ≡ (pmm_alloc full_machine).1)
    × (bitmap_test (pmm_alloc machine).0 0 ≡ true)
    × ((pmm_alloc machine).0.free_pages + 1 ≡ 5)
    × ((pmm_alloc full_machine).0 ≡ full_machine)
unfolding bitmap_test test_bit
pmm_alloc-page_zero_example =
    pmm_alloc-page_zero machine-IsValid full_machine-IsValid (omega arith) refl refl

alloc_many-Handed_example : Handed machine 5 (alloc_many 5 machine)
alloc_many-Handed_example = alloc_many-Handed 5 machine-IsValid (omega arith)

-- Usable memory has kind 0: pages 1 to 9, a reserved hole, pages 16 to 19.
abbrev map : List Entry
map =
    record { base = 4096; size = 36864; kind = 0 }
    ∷ record { base = 40960; size = 24576; kind = 1 }
    ∷ record { base = 65536; size = 16384; kind = 0 }
    ∷ []

abbrev cold : Pmm
cold = record {
  bitmap = 0;
  total_pages = 0;
  free_pages = 0;
  bitmap_size = 0;
  hhdm_offset = 0;
  mem = λ a. 0;
}

map-Boot : Boot 0 map 1000000 cold
map-Boot = record {
  bytes = λ a. omega arith;
  none_free = refl;
  paged = ((λ k. omega arith), ((λ k. absurd (omega arith)), ((λ k. omega arith), tt)));
  disjoint = ((λ j h. ground arith), ((λ j h. ground arith), ((λ j h. ground arith), tt)));
  offset = omega arith;
}

-- Twelve pages are free after the bitmap took page 1.
init_counts : ((pmm_init 0 map 1000000 cold).free_pages ≡ 12)
unfolding pmm_init claim release bitmap_set bitmap_clear test_bit set_bit clear_bit update
init_counts = refl

pmm_init-IsValid_example :
    let r = pmm_init 0 map 1000000 cold in
    IsValid r
    × (r.total_pages ≡ highest_end 0 map 0 / page_size)
    × ((j : ℕ)
        → j < r.total_pages
        → bitmap_test r j
          ≡ initial_usage 0 map
              (record { base = 4096; size = 36864; kind = 0 })
              (measured 0 map 1000000 cold).bitmap_size
              j)
unfolding measured
pmm_init-IsValid_example = pmm_init-IsValid 0 map-Boot refl
