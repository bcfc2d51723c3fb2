-- ===== src/Mm/Vmm/Tests.antt =====
-- One empty table in page 1, over the bitmap allocator, at the offset that Limine uses.
use ded_os.Base.{
  ℕ, ◌+◌, ◌^◌, ◌≡◌, refl, ◌∙◌, sym, inl, inr, true, false, none, some, List, [], arith, ◌==◌,
  if◌then◌else◌, Bool-cases, ==_iff, if_false, ap, ◌-◌, ◌/◌,
}
use ded_os.Base.BitOps.{test_bit, set_bit}
use ded_os.Base.Memory.{update}
use ded_os.Mm.Pmm.{Pmm, bitmap_test, bitmap_set, claim, pmm_alloc}
use ded_os.Mm.Pmm.Count.{count_free}
use ded_os.Mm.Vmm.{Vmm, get_or_create, vmm_map, vmm_unmap}
use ded_os.Mm.Vmm.Frames.{pmm_frames, IsReadyPmm}
use ded_os.Mm.Vmm.Tree.{Owner, IsTree}
use ded_os.Mm.Vmm.Create.{Created, get_or_create-Created}
use ded_os.Mm.Vmm.Map.{Mapped, vmm_map-Mapped}
use ded_os.Mm.Vmm.Unmap.{vmm_unmap-Mapped}

abbrev machine : Pmm
machine = record {
  bitmap = 100;
  total_pages = 8;
  free_pages = 6;
  bitmap_size = 1;
  hhdm_offset = 0;
  mem = λ a. if a == 100 then 3 else 0;
}

abbrev hhdm : ℕ
hhdm = 0xffff800000000000

abbrev tables : Vmm Pmm
tables = record { frames = machine; mem = λ a. 0; hhdm_offset = hhdm; cr3 = 4096 }

abbrev root : ℕ
root = hhdm + 4096

abbrev owner : Owner
owner t = if t == root then some [] else none

machine-IsReady : IsReadyPmm (2 ^ 47) machine
unfolding bitmap_test count_free test_bit
machine-IsReady = (
  record { bytes = λ a. ground arith; addressable = omega arith; counted = refl },
  refl,
  omega arith,
)

none_ne_some : {p : List ℕ} → none ≡ some p → ⊥
none_ne_some e = cc

false_ne_true : false ≡ true → ⊥
false_ne_true e = cc

first_page : (pmm_alloc machine).1 ≡ 8192
unfolding pmm_alloc bitmap_test bitmap_set claim test_bit set_bit update
first_page = refl

owner_root : (t : ℕ) (p : List ℕ) → owner t ≡ some p → t ≡ root
owner_root t p e = elim (Bool-cases (t == root)) [
  | inl h ↦ (==_iff t root).0 h
  | inr h ↦ absurd (none_ne_some (sym (if_false (t == root) (some []) none h) ∙ e))
]

tables-IsTree : IsTree (pmm_frames (2 ^ 47)) owner tables
unfolding bitmap_test test_bit
tables-IsTree = record {
  ready = machine-IsReady;
  offset_whole = refl;
  offset_some = omega arith;
  offset_room = omega arith;
  whole = λ t p e. omega (arith, owner_root t p e);
  mapped = λ t p e. omega (arith, owner_root t p e);
  held = λ t p e. ap (λ a. bitmap_test machine ((a - hhdm) / 4096)) (owner_root t p e);
  child = λ t p i e h l there. absurd (false_ne_true there);
}

vmm_map-Mapped_example :
    Mapped root 0x400000 0x7000 tables (vmm_map pmm_alloc root 0x400000 0x7000 3 tables)
vmm_map-Mapped_example =
    vmm_map-Mapped (pmm_frames (2 ^ 47)) tables-IsTree root refl 0x400000 0x7000 3 refl
      (omega arith) (omega arith)

vmm_unmap-Mapped_example : Mapped root 0x400000 0 tables (vmm_unmap root 0x400000 tables)
vmm_unmap-Mapped_example = vmm_unmap-Mapped (pmm_frames (2 ^ 47)) tables-IsTree root refl 0x400000

get_or_create-Created_example :
    let r = get_or_create pmm_alloc root 5 3 tables in
    (owner' : Owner) × Created (pmm_frames (2 ^ 47)) owner tables root 5 [] owner' r.0 r.1
get_or_create-Created_example =
    get_or_create-Created (pmm_frames (2 ^ 47)) tables-IsTree root 5 [] refl (omega arith)
      (omega arith) 3 (omega arith) refl (omega arith)
