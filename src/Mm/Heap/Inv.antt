-- ===== src/Mm/Heap/Inv.antt =====
-- The invariant of the heap, kernel/src/mm/heap.c. `own` gives the object size of each page that is
-- a slab, and `free` its free objects in the order of its list.
use native.Mathlib.Nat.{mul_assoc}
use ded_os.Base.{
  ℕ, ◌+◌, ◌-◌, ◌*◌, ◌/◌, ◌%◌, ◌^◌, ◌≤◌, ◌<◌, ◌≡◌, ◌≢◌, sym, ◌∙◌, ap, ◌⊎◌, inl, inr, Option, some,
  true, List, [], ◌∷◌, arith, All,
}
use ded_os.Base.Memory.{update, update_ne}
use ded_os.Mm.Vmm.Frames.{Frames}
use ded_os.Mm.Heap.{Heap, store}
use ded_os.Mm.Heap.Lists.{Linked, Absent, Distinct, Linked-update}

abbrev pub Slabs : Type 0
Slabs = ℕ → Option ℕ

abbrev pub FreeLists : Type 0
FreeLists = ℕ → List ℕ

-- `o` is the address of an object of the slab `b`.
pub record Slot (size b o : ℕ) : Type 0 where
  pub index : ℕ
  pub at : o ≡ b + 24 + index * size
  pub inside : 24 + index * size + size ≤ 4096

pub record IsSlab (m : ℕ → ℕ) (own : Slabs) (b size : ℕ) (objs : List ℕ) : Type 0 where
  pub units : size % 32 ≡ 0
  pub some_size : 32 ≤ size
  pub page : b % 4096 ≡ 0
  pub nonnull : 0 < b
  pub headed : m b ≡ size
  pub chained : (m (b + 16) ≡ 0) ⊎ (own (m (b + 16)) ≡ some size)
  pub slots : All (Slot size b) objs
  pub distinct : Distinct objs
  pub list : Linked m (m (b + 8)) objs

pub record IsHeap {P : Type 0} {alloc : P → P × ℕ} (f : Frames P alloc) (own : Slabs)
    (free : FreeLists) (s : Heap P) : Type 0 where
  pub ready : f.IsReady s.vmm.frames
  pub offset_page : s.vmm.hhdm_offset % 4096 ≡ 0
  pub offset_fits : f.limit + s.vmm.hhdm_offset ≤ 2 ^ 64
  pub granted :
      (b size : ℕ)
      → own b ≡ some size
      → (s.vmm.hhdm_offset ≤ b)
        × (f.held s.vmm.frames ((b - s.vmm.hhdm_offset) / 4096) ≡ true)
        × (b < 2 ^ 64)
  pub slabs : (b size : ℕ) → own b ≡ some size → IsSlab s.mem own b size (free b)
  pub cached : All (λ c. (c.first_slab ≡ 0) ⊎ (own c.first_slab ≡ some c.obj_size)) s.caches

mul_units : (k size : ℕ) → size % 32 ≡ 0 → (k * size) % 32 ≡ 0
mul_units k size h =
    let e : k * size ≡ k * (size / 32) * 32 =
      ap (λ n. k * n) {x = size} {y = size / 32 * 32} (omega arith)
      ∙ sym (mul_assoc k (size / 32) 32) in
    omega (arith, e)

-- Where an object lies.
pub record Placed (b o : ℕ) : Type 0 where
  pub stride : o % 32 ≡ 24
  pub after : b + 24 ≤ o
  pub within : o + 32 ≤ b + 4096

pub Slot-Placed :
    (size b o : ℕ) → size % 32 ≡ 0 → 32 ≤ size → b % 4096 ≡ 0 → Slot size b o → Placed b o
Slot-Placed size b o units some_size page slot =
    let k = mul_units slot.index size units in
    record {
      stride = omega (arith, k, slot.at);
      after = omega (arith, slot.at);
      within = omega (arith, slot.at, slot.inside);
    }

-- The word `a` is no word of a slab's header and no free object of it.
pub record Quiet (a b : ℕ) (objs : List ℕ) : Type 0 where
  pub no_size : a ≢ b
  pub no_list : a ≢ b + 8
  pub no_next : a ≢ b + 16
  pub no_object : Absent a objs

pub IsSlab-update :
    {m : ℕ → ℕ} {own : Slabs} {b size : ℕ} {objs : List ℕ} (a v : ℕ)
    → Quiet a b objs
    → IsSlab m own b size objs
    → IsSlab (update m a v) own b size objs
IsSlab-update {m} {own} {b} {size} {objs} a v q i =
    let list_same = update_ne m a v (b + 8) (λ e. q.no_list (sym e)) in
    let next_same = update_ne m a v (b + 16) (λ e. q.no_next (sym e)) in
    record {
      units = i.units;
      some_size = i.some_size;
      page = i.page;
      nonnull = i.nonnull;
      headed = update_ne m a v b (λ e. q.no_size (sym e)) ∙ i.headed;
      chained = rw next_same i.chained;
      slots = i.slots;
      distinct = i.distinct;
      list = rw list_same (Linked-update m a v (m (b + 8)) objs q.no_object i.list);
    }

-- An address outside a page is none of its free objects.
pub far-Absent :
    (a size b : ℕ) (objs : List ℕ)
    → size % 32 ≡ 0
    → 32 ≤ size
    → b % 4096 ≡ 0
    → (a < b) ⊎ (b + 4096 ≤ a)
    → All (Slot size b) objs
    → Absent a objs
far-Absent a size b [] u z p far all = tt
far-Absent a size b (o ∷ os) u z p far (slot, all) =
    let placed = Slot-Placed size b o u z p slot in
    ((λ e. beyond far placed.after placed.within e), far-Absent a size b os u z p far all)
  where
    beyond : (a < b) ⊎ (b + 4096 ≤ a) → b + 24 ≤ o → o + 32 ≤ b + 4096 → a ≡ o → ⊥
    beyond (inl h) k l e = omega arith
    beyond (inr h) k l e = omega arith

pub far-Quiet :
    {m : ℕ → ℕ} {own : Slabs} {b size : ℕ} {objs : List ℕ} (a : ℕ)
    → (a < b) ⊎ (b + 4096 ≤ a)
    → IsSlab m own b size objs
    → Quiet a b objs
far-Quiet {b = b} {size = size} {objs = objs} a far i = record {
  no_size = λ e. ground arith;
  no_list = λ e. ground arith;
  no_next = λ e. ground arith;
  no_object = far-Absent a size b objs i.units i.some_size i.page far i.slots;
}

-- A word elsewhere in the page, at the stride of no object, is none either.
pub odd-Absent :
    (a size b : ℕ) (objs : List ℕ)
    → size % 32 ≡ 0
    → 32 ≤ size
    → b % 4096 ≡ 0
    → a % 32 ≢ 24
    → All (Slot size b) objs
    → Absent a objs
odd-Absent a size b [] u z p odd all = tt
odd-Absent a size b (o ∷ os) u z p odd (slot, all) =
    let placed = Slot-Placed size b o u z p slot in
    ((λ e. odd (ap (λ n. n % 32) e ∙ placed.stride)), odd-Absent a size b os u z p odd all)

-- What a write to words that hold nothing of the slabs leaves.
pub store-IsHeap :
    {P : Type 0} {alloc : P → P × ℕ} {f : Frames P alloc} {own : Slabs} {free : FreeLists}
    {s : Heap P} (a v : ℕ)
    → ((b size : ℕ) → own b ≡ some size → Quiet a b (free b))
    → IsHeap f own free s
    → IsHeap f own free (store a v s)
store-IsHeap a v quiet h = record {
  ready = h.ready;
  offset_page = h.offset_page;
  offset_fits = h.offset_fits;
  granted = h.granted;
  slabs = λ b size e. IsSlab-update a v (quiet b size e) (h.slabs b size e);
  cached = h.cached;
}

-- Two pages that are not one are apart.
pub pages_apart :
    (b c a : ℕ)
    → b % 4096 ≡ 0
    → c % 4096 ≡ 0
    → b ≢ c
    → c ≤ a
    → a < c + 4096
    → (a < b) ⊎ (b + 4096 ≤ a)
pages_apart b c a hb hc apart lo hi = ground arith
