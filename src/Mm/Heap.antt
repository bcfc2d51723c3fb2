-- ===== src/Mm/Heap.antt =====
-- The kernel heap, kernel/src/mm/heap.c: slabs of objects of one size for small blocks, and pages of
-- their own for large ones. `Heap` holds the static variables, and memory as 64-bit words at
-- virtual addresses: a `struct slab_header` is the words `obj_size`, `free_list`, `next_slab`; a
-- `struct alloc_header` is the words `magic` (its low half), `pages`, `size`; a free object holds
-- `next` in its first word. The physical allocator is a parameter, as it is of the page tables,
-- whose words are kept apart in `vmm`.
pub mod Lists
pub mod Inv
pub mod Objects
pub mod Stock
pub mod Slab
pub mod Grow
pub mod Blocks
pub mod Serve
pub mod Kmalloc
pub mod Kcalloc
pub mod Kfree
pub mod History
pub mod Run
pub mod Held
pub mod Sound
pub mod Return
pub mod Write
pub mod Safe
pub mod Init
mod Tests
use ded_os.Base.{
  ℕ, zero, suc, ◌+◌, ◌-◌, ◌*◌, ◌/◌, ◌%◌, ◌^◌, Bool, true, false, not, Option, none, some, List, [],
  ◌∷◌, ◌&&◌, ltb, leb, ◌==◌, if◌then◌else◌,
}
use ded_os.Base.Word.{add64, sub64, mul64}
use ded_os.Base.Memory.{update}
use ded_os.Base.Partial.{◌>>=◌}
use ded_os.Mm.Vmm.{Vmm, vmm_map, vmm_unmap, vmm_get_phys, vmm_get_current, vmm_present, vmm_write}

abbrev pub magic_slab : ℕ
magic_slab = 0x800051AB

abbrev pub magic_page : ℕ
magic_page = 0x80007A63

-- `struct slab_cache`.
pub record SlabCache : Type 0 where
  pub obj_size : ℕ
  pub first_slab : ℕ

pub record Heap (P : Type 0) : Type 0 where
  pub vmm : Vmm P
  pub mem : ℕ → ℕ
  pub kernel_heap_vaddr : ℕ
  pub caches : List SlabCache

-- SLAB_32 to SLAB_1024.
abbrev pub slab_sizes : List ℕ
slab_sizes = 32 ∷ 64 ∷ 128 ∷ 256 ∷ 512 ∷ 1024 ∷ []

-- The loop that links the objects of a slab, with `n` rounds left at `current`.
unfoldable pub link_objects : ℕ → ℕ → ℕ → (ℕ → ℕ) → ℕ → ℕ
link_objects zero obj_size current m = update m current 0
link_objects (suc n) obj_size current m =
    link_objects n obj_size (current + obj_size) (update m current (current + obj_size))

-- A 32-bit store at the address of a word.
abbrev pub low_half : ℕ → ℕ → ℕ
low_half word v = word / 2 ^ 32 * 2 ^ 32 + v

-- `memset(ptr, 0, n)` at the address of a word: whole words, and the low bytes of the last one.
unfoldable pub clear_words : ℕ → ℕ → (ℕ → ℕ) → ℕ → ℕ
clear_words ptr n m a =
    let kept = 2 ^ (8 * (n % 8)) in
    if leb ptr a && ltb a (ptr + n / 8 * 8)
    then 0
    else if a == ptr + n / 8 * 8
    then m a / kept * kept
    else m a

-- The first cache whose objects are large enough.
unfoldable pub find_cache : ℕ → List SlabCache → Option SlabCache
find_cache total [] = none
find_cache total (c ∷ cs) =
    let rest = find_cache total cs in if leb total c.obj_size then some c else rest

module _ {P : Type 0} where
  abbrev pub store : ℕ → ℕ → Heap P → Heap P
  store a v s = record s { mem = update s.mem a v }

  -- `slab->free_list = slab->free_list->next` for an object on the list.
  unfoldable pub pop_object : ℕ → Heap P → Heap P
  pop_object slab s = store (slab + 8) (s.mem (s.mem (slab + 8))) s

  -- `obj->next = slab->free_list; slab->free_list = obj`.
  unfoldable pub push_object : ℕ → ℕ → Heap P → Heap P
  push_object slab obj s = store (slab + 8) obj (store obj (s.mem (slab + 8)) s)

  -- `header->magic = MAGIC_SLAB; header->size = size`.
  unfoldable pub mark_slab_block : ℕ → ℕ → Heap P → Heap P
  mark_slab_block header size s =
      store (header + 16) size (store header (low_half (s.mem header) magic_slab) s)

  -- The header of a block of whole pages.
  unfoldable pub mark_page_block : ℕ → ℕ → ℕ → Heap P → Heap P
  mark_page_block header pages size s =
      store (header + 16) size
        (store (header + 8) pages (store header (low_half (s.mem header) magic_page) s))

module _ {P : Type 0} (alloc : P → P × ℕ) where
  -- The result of `pmm_alloc`, in the state of the heap.
  unfoldable pub take_page : Heap P → Heap P × ℕ
  take_page s =
      let (frames, phys) = alloc s.vmm.frames in
      (record s { vmm = record s.vmm { frames = frames } }, phys)

  unfoldable pub create_slab : ℕ → Heap P → Heap P × ℕ
  unfolding take_page
  create_slab obj_size s =
      let (s', phys) = take_page s in
      let slab = add64 phys s.vmm.hhdm_offset in
      let first = slab + 24 in
      let num_objs = 4072 / obj_size in
      let headed = update (update (update s'.mem slab obj_size) (slab + 16) 0) (slab + 8) first in
      if phys == 0
      then (s', 0)
      else (record s' { mem = link_objects (sub64 num_objs 1) obj_size first headed }, slab)

  -- The loop of `heap_init` over the sizes.
  unfoldable pub create_caches : List ℕ → Heap P → Heap P
  create_caches [] s = s
  create_caches (size ∷ sizes) s =
      let (s1, slab) = create_slab size s in
      let s2 = create_caches sizes s1 in
      record s2 { caches = record { obj_size = size; first_slab = slab } ∷ s2.caches }

  unfoldable pub heap_init : Heap P → Heap P
  unfolding create_caches
  heap_init s = create_caches slab_sizes (record s { caches = [] })

  -- `if (!slab->next_slab) slab->next_slab = create_slab(obj_size)`.
  unfoldable pub extend : ℕ → ℕ → Heap P → Heap P
  extend obj_size slab s =
      let (s', new) = create_slab obj_size s in
      if s.mem (slab + 16) == 0 then store (slab + 16) new s' else s

  -- The walk of `kmalloc` over the slabs of a cache; an object, or 0.
  unfoldable pub take_object : ℕ → ℕ → ℕ → Heap P → Option (Heap P × ℕ)
  unfolding pop_object extend
  take_object zero obj_size slab s = none
  take_object (suc fuel) obj_size slab s =
      let s' = extend obj_size slab s in
      let rest = take_object fuel obj_size (s'.mem (slab + 16)) s' in
      if slab == 0
      then some (s, 0)
      else if s.mem (slab + 8) == 0
      then rest
      else some (pop_object slab s, s.mem (slab + 8))

  -- The loop that maps the pages of a large block, with `n` rounds left at page `i`; false if a
  -- page is missing.
  unfoldable pub map_pages : ℕ → ℕ → ℕ → ℕ → Heap P → Heap P × Bool
  unfolding take_page
  map_pages zero pml4 virt_start i s = (s, true)
  map_pages (suc n) pml4 virt_start i s =
      let (s', phys) = take_page s in
      let mapped = record s' {
        vmm = vmm_map alloc pml4 (virt_start + i * 4096) phys (vmm_present + vmm_write) s'.vmm;
      } in
      let rest = map_pages n pml4 virt_start (i + 1) mapped in
      if phys == 0 then (s', false) else rest

  -- The branch of `kmalloc` for large blocks.
  unfoldable pub alloc_pages : ℕ → Heap P → Heap P × ℕ
  unfolding map_pages
  alloc_pages size s =
      let pages_count = add64 (add64 size 24) 4095 / 4096 in
      let virt_start = s.kernel_heap_vaddr in
      let (s', done) =
        map_pages pages_count (vmm_get_current s.vmm) virt_start 0
          (record s { kernel_heap_vaddr = add64 virt_start (mul64 pages_count 4096) }) in
      if done then (mark_page_block virt_start pages_count size s', virt_start + 24) else (s', 0)

  -- The branch of `kmalloc` for small blocks.
  unfoldable pub alloc_object : ℕ → ℕ → Heap P → Option (Heap P × ℕ)
  unfolding take_object mark_slab_block
  alloc_object fuel size s = elim (find_cache (add64 size 24) s.caches) [
    | none ↦ some (s, 0)
    | some c ↦ do
      (s', header) ← take_object fuel c.obj_size c.first_slab s
      if header == 0 then some (s', 0) else some (mark_slab_block header size s', header + 24)
  ]

  unfoldable pub kmalloc : ℕ → ℕ → Heap P → Option (Heap P × ℕ)
  unfolding alloc_pages alloc_object
  kmalloc fuel size s =
      if size == 0
      then some (s, 0)
      else if ltb 1024 size
      then some (alloc_pages size s)
      else alloc_object fuel size s

  unfoldable pub kcalloc : ℕ → ℕ → ℕ → Heap P → Option (Heap P × ℕ)
  unfolding kmalloc clear_words
  kcalloc fuel count size s = do
    (s', ptr) ← kmalloc fuel (mul64 count size) s
    let cleared = clear_words ptr (mul64 count size) s'.mem
    some (if ptr == 0 then (s', 0) else (record s' { mem = cleared }, ptr))

module _ {P : Type 0} (free : P → ℕ → P) where
  -- The loop of `kfree` over the pages of a large block, with `n` rounds left at page `i`.
  unfoldable pub unmap_pages : ℕ → ℕ → ℕ → ℕ → Heap P → Heap P
  unmap_pages zero pml4 virt_base i s = s
  unmap_pages (suc n) pml4 virt_base i s =
      let v_addr = virt_base + i * 4096 in
      let phys = vmm_get_phys pml4 v_addr s.vmm in
      let vmm = vmm_unmap pml4 v_addr s.vmm in
      unmap_pages n pml4 virt_base (i + 1)
        (record s { vmm = if phys == 0 then vmm else record vmm { frames = free vmm.frames phys } })

  unfoldable pub kfree : ℕ → Heap P → Heap P
  unfolding push_object unmap_pages
  kfree ptr s =
      let header = sub64 ptr 24 in
      let magic = s.mem header % 2 ^ 32 in
      if ptr == 0
      then s
      else if magic == magic_slab
      then push_object (header / 4096 * 4096) header s
      else if magic == magic_page
      then unmap_pages (s.mem (header + 8)) (vmm_get_current s.vmm) header 0 s
      else s
