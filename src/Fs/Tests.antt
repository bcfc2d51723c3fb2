-- ===== src/Fs/Tests.antt =====
-- Files over the kernel's own heap, and that over the bitmap allocator.
use ded_os.Base.{
  ℕ, zero, suc, ◌+◌, ◌≤◌, ◌<◌, ◌^◌, ◌≡◌, refl, ◌≢◌, none, some, List, [], ◌∷◌, arith, ◌==◌,
  if◌then◌else◌, length,
}
use ded_os.Base.BitOps.{test_bit, set_bit}
use ded_os.Base.Memory.{update}
use ded_os.Mm.Pmm.{Pmm, bitmap_test, bitmap_set, claim, pmm_alloc, pmm_free}
use ded_os.Mm.Pmm.Count.{count_free}
use ded_os.Mm.Vmm.Frames.{Frames, pmm_frames, IsReadyPmm}
use ded_os.Mm.Heap.{Heap, heap_init, create_caches, create_slab, take_page}
use ded_os.Mm.Heap.Inv.{Slabs, FreeLists, IsHeap}
use ded_os.Mm.Heap.Stock.{Stocked}
use ded_os.Mm.Heap.Init.{heap_init-IsHeap}
use ded_os.Fs.KernelHeap.{
  Tracked, tracked_kmalloc, tracked_kfree, kernel_heap, kernel_heap-left, kernel_heap-largest,
}
use ded_os.Fs.{Files, vfs_file}
use ded_os.Fs.Dir.{slice}
use ded_os.Fs.Vfs.{vfs_find_path, vfs_read, char_at}
use ded_os.Fs.Tmpfs.{tmpfs_init, tmpfs_add_entry}
use ded_os.Fs.Inv.{Allocator, IsTree, Kids, NodeSet, found, resolve}
use ded_os.Fs.Init.{tmpfs_init-IsTree}
use ded_os.Fs.Paths.{IsName, path_of}
use ded_os.Fs.Find.{Finds, vfs_find_path-Walked, vfs_find_path-diverges}
use ded_os.Fs.RoundTrip.{vfs_read-tmpfs_add_entry}

-- 32 pages, two of them in use.
abbrev machine : Pmm
machine = record {
  bitmap = 100;
  total_pages = 32;
  free_pages = 30;
  bitmap_size = 4;
  hhdm_offset = 0;
  mem = λ a. if a == 100 then 3 else 0;
}

abbrev empty : Heap Pmm
empty = record {
  vmm = record { frames = machine; mem = λ a. 0; hhdm_offset = 0xffff800000000000; cr3 = 4096 };
  mem = λ a. 0;
  kernel_heap_vaddr = 0xffffffff90000000;
  caches = [];
}

machine-IsReady : IsReadyPmm (2 ^ 47) machine
unfolding bitmap_test count_free test_bit
machine-IsReady = (
  record { bytes = λ a. ground arith; addressable = omega arith; counted = refl },
  refl,
  omega arith,
)

abbrev frames : Frames Pmm pmm_alloc
frames = pmm_frames (2 ^ 47)

in_order :
    (own : Slabs) × (free : FreeLists) × IsHeap frames own free (heap_init pmm_alloc empty)
    × Stocked 1 own (heap_init pmm_alloc empty)
in_order = heap_init-IsHeap frames empty machine-IsReady (omega arith) (omega arith) (omega arith)

started_pages : (heap_init pmm_alloc empty).vmm.frames.free_pages ≡ 24
unfolding heap_init create_caches create_slab take_page pmm_alloc bitmap_test bitmap_set claim
    test_bit set_bit update
started_pages = refl

-- The heap after `heap_init`, with no block held.
abbrev started : Tracked frames
started = record {
  slabs = 1;
  left = 24;
  heap = heap_init pmm_alloc empty;
  held = [];
  sound = record {
    own = in_order.0;
    free = in_order.1;
    valid = in_order.2;
    stocked = in_order.3;
    pages = omega (arith, started_pages);
    live = tt;
    apart = tt;
  };
}

abbrev take_block : ℕ → Tracked frames → Tracked frames × ℕ
take_block = tracked_kmalloc frames pmm_free

abbrev give_block : ℕ → Tracked frames → Tracked frames
give_block = tracked_kfree frames pmm_free

abbrev kernel : Allocator (Tracked frames) take_block give_block
kernel = kernel_heap frames pmm_free

abbrev blank : Files (Tracked frames)
blank = record {
  heap = started;
  internal = λ p. record { name = []; flags = 0; size = 0; contents = []; next = 0; children = 0 };
  nodes = λ p. record { name = []; flags = 0; size = 0; device = 0; read = none; finddir = none };
  root_internal = 0;
  vfs_root = 0;
}

abbrev fs : Files (Tracked frames)
fs = tmpfs_init take_block blank

abbrev rooted : NodeSet
rooted d = d == fs.root_internal

abbrev no_kids : Kids
no_kids d = []

started_left : kernel.left started ≡ 24
started_left = kernel_heap-left frames pmm_free started

made : IsTree kernel rooted no_kids fs × (kernel.left started ≤ kernel.left fs.heap + 2)
made = tmpfs_init-IsTree kernel blank (omega (arith, started_left))

serves : kernel.largest ≡ 1000
serves = kernel_heap-largest frames pmm_free

tmpfs_init-IsTree_example :
    IsTree kernel rooted no_kids fs × (kernel.left started ≤ kernel.left fs.heap + 2)
tmpfs_init-IsTree_example = tmpfs_init-IsTree kernel blank (omega (arith, started_left))

vfs_find_path-Walked_example : Finds kernel rooted no_kids 20 (47 ∷ 97 ∷ []) fs
vfs_find_path-Walked_example =
    vfs_find_path-Walked kernel 20 0 (47 ∷ 97 ∷ []) made.0 (λ d. omega arith)
      ((λ e. omega arith), ((λ e. omega arith), tt)) (λ e. cc e) (omega arith) (omega arith)
      (omega (arith, made.1, started_left))

-- The letter a, over and over.
abbrev letters : ℕ → List ℕ
letters zero = []
letters (suc n) = 97 ∷ letters n

letters_at : (n k : ℕ) → k < n → char_at (letters n) k ≡ 97
letters_at zero k h = absurd (omega arith)
letters_at (suc n) zero h = refl
letters_at (suc n) (suc k) h = letters_at n k (omega arith)

vfs_find_path-diverges_example : vfs_find_path take_block give_block 1000 (letters 300) fs ≡ none
vfs_find_path-diverges_example =
    vfs_find_path-diverges take_block give_block 1000 (letters 300) fs (λ k h. (
      (λ e. omega (arith, letters_at 300 k (omega arith), e)),
      (λ e. omega (arith, letters_at 300 k (omega arith), e)),
    ))

letter-IsName : IsName (97 ∷ [])
letter-IsName = record {
  begun = omega arith;
  short = omega arith;
  plain = ((λ e. omega arith), tt);
  text = ((λ e. omega arith), tt);
}

vfs_read-tmpfs_add_entry_example :
    (s1 : Files (Tracked frames)) × (new : ℕ) × (s2 : Files (Tracked frames)) × (v : ℕ)
    × (tmpfs_add_entry take_block give_block 20
          (path_of ((97 ∷ []) ∷ []))
          (5 ∷ 6 ∷ 7 ∷ [])
          3
          vfs_file
          fs
        ≡ some (s1, new))
    × (vfs_find_path take_block give_block 20 (path_of ((97 ∷ []) ∷ [])) s1 ≡ some (s2, v))
    × (v ≢ 0)
    × (vfs_read s2 v 1 9 ≡ (length (slice 1 9 (5 ∷ 6 ∷ 7 ∷ [])), slice 1 9 (5 ∷ 6 ∷ 7 ∷ [])))
unfolding path_of
vfs_read-tmpfs_add_entry_example =
    vfs_read-tmpfs_add_entry kernel made.0 20 0 (λ d. omega arith) [] (97 ∷ []) (5 ∷ 6 ∷ 7 ∷ [])
      fs.root_internal tt letter-IsName at_root made.0.root_dir made.0.root tt (omega arith)
      (omega arith) (omega (arith, serves)) (omega (arith, made.1, started_left)) 1 9 (omega arith)
  where
    at_root : resolve fs.internal no_kids fs.root_internal [] ≡ found fs.root_internal
    at_root = unfold resolve in refl
