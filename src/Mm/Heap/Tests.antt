-- ===== src/Mm/Heap/Tests.antt =====
-- A heap over the bitmap allocator with 16 pages, two of them in use.
use ded_os.Base.{ℕ, ◌*◌, ◌^◌, ◌≡◌, refl, some, List, [], ◌∷◌, arith, ◌==◌, if◌then◌else◌}
use ded_os.Base.BitOps.{test_bit, set_bit}
use ded_os.Base.Memory.{update}
use ded_os.Mm.Pmm.{Pmm, bitmap_test, bitmap_set, claim, pmm_alloc, pmm_free}
use ded_os.Mm.Pmm.Count.{count_free}
use ded_os.Mm.Vmm.Frames.{Frames, pmm_frames, IsReadyPmm}
use ded_os.Mm.Heap.{Heap, kmalloc, kfree, kcalloc, heap_init, create_caches, create_slab, take_page}
use ded_os.Mm.Heap.Inv.{Slabs, FreeLists, IsHeap}
use ded_os.Mm.Heap.Stock.{Stocked}
use ded_os.Mm.Heap.Kmalloc.{Served, kmalloc-Served}
use ded_os.Mm.Heap.Kcalloc.{Cleared, kcalloc-Cleared}
use ded_os.Mm.Heap.Kfree.{kfree-kmalloc}
use ded_os.Mm.Heap.History.{AllDisjoint, Block}
use ded_os.Mm.Heap.Run.{take, give_back, write, run}
use ded_os.Mm.Heap.Safe.{run-Disjoint}
use ded_os.Mm.Heap.Init.{heap_init-IsHeap, kmalloc-refuses}

abbrev machine : Pmm
machine = record {
  bitmap = 100;
  total_pages = 16;
  free_pages = 14;
  bitmap_size = 2;
  hhdm_offset = 0;
  mem = λ a. if a == 100 then 3 else 0;
}

abbrev empty : Heap Pmm
empty = record {
  vmm = record { frames = machine; mem = λ a. 0; hhdm_offset = 0xffff800000000000; cr3 = 4096 };
  mem = λ a. 0;
  kernel_heap_vaddr = 0xffffffff90000000;
  caches = [];
}

machine-IsReady : IsReadyPmm (2 ^ 47) machine
unfolding bitmap_test count_free test_bit
machine-IsReady = (
  record { bytes = λ a. ground arith; addressable = omega arith; counted = refl },
  refl,
  omega arith,
)

abbrev frames : Frames Pmm pmm_alloc
frames = pmm_frames (2 ^ 47)

in_order :
    (own : Slabs) × (free : FreeLists) × IsHeap frames own free (heap_init pmm_alloc empty)
    × Stocked 1 own (heap_init pmm_alloc empty)
in_order = heap_init-IsHeap frames empty machine-IsReady (omega arith) (omega arith) (omega arith)

heap_init-IsHeap_example :
    (own : Slabs) × (free : FreeLists) × IsHeap frames own free (heap_init pmm_alloc empty)
    × Stocked 1 own (heap_init pmm_alloc empty)
heap_init-IsHeap_example =
    heap_init-IsHeap frames empty machine-IsReady (omega arith) (omega arith) (omega arith)

abbrev started : Heap Pmm
started = heap_init pmm_alloc empty

started_pages : started.vmm.frames.free_pages ≡ 8
unfolding heap_init create_caches create_slab take_page pmm_alloc bitmap_test bitmap_set claim
    test_bit set_bit update
started_pages = refl

run-Disjoint_example :
    (s' : Heap Pmm) × (held : List Block) × (own' : Slabs) × (free' : FreeLists) × (run pmm_alloc
        pmm_free 2
        (take 40 ∷ take 1000 ∷ write 1 8 7 ∷ give_back 0 ∷ [])
        (started, [])
      ≡ some (s', held))
    × IsHeap frames own' free' s'
    × AllDisjoint held
run-Disjoint_example =
    run-Disjoint pmm_free 1 (take 40 ∷ take 1000 ∷ write 1 8 7 ∷ give_back 0 ∷ []) in_order.2
      in_order.3 (omega arith) (omega (arith, started_pages))

served_40 :
    (s' : Heap Pmm) × (ptr : ℕ) × (kmalloc pmm_alloc 2 40 started ≡ some (s', ptr))
    × Served frames in_order.0 in_order.1 40 started s' ptr
served_40 =
    kmalloc-Served 1 40 in_order.2 in_order.3 (omega (arith, started_pages)) (omega arith)
      (omega arith)

kmalloc-Served_example :
    (s' : Heap Pmm) × (ptr : ℕ) × (kmalloc pmm_alloc 2 40 started ≡ some (s', ptr))
    × Served frames in_order.0 in_order.1 40 started s' ptr
kmalloc-Served_example =
    kmalloc-Served 1 40 in_order.2 in_order.3 (omega (arith, started_pages)) (omega arith)
      (omega arith)

kfree-kmalloc_example :
    IsHeap frames served_40.3.own' served_40.3.free' (kfree pmm_free served_40.1 served_40.0)
kfree-kmalloc_example = kfree-kmalloc pmm_free served_40.3

kmalloc-refuses_example : kmalloc pmm_alloc 2 1010 started ≡ some (started, 0)
kmalloc-refuses_example =
    kmalloc-refuses pmm_alloc 2 1010 started in_order.3.sizes (omega arith) (omega arith)

kcalloc-Cleared_example :
    (s1 s' : Heap Pmm) × (ptr : ℕ) × (t : Served frames in_order.0 in_order.1
      (3 * 20)
      started
      s1
      ptr)
    × (kmalloc pmm_alloc 2 (3 * 20) started ≡ some (s1, ptr))
    × (kcalloc pmm_alloc 2 3 20 started ≡ some (s', ptr))
    × Cleared frames t.own' (update t.free' t.slab t.rest) (3 * 20) ptr s1 s'
kcalloc-Cleared_example =
    kcalloc-Cleared 1 3 20 in_order.2 in_order.3 (omega (arith, started_pages)) (omega arith)
      (omega arith)
