-- ===== src/Mm/Heap/Run.antt =====
-- A caller of the heap, kernel/src/mm/heap.c, that takes blocks, writes to those it holds and gives
-- them back, in any order.
use ded_os.Base.{
  ℕ, zero, suc, ◌+◌, ◌≤◌, ◌<◌, ◌≢◌, Option, none, some, List, [], ◌∷◌, All, ltb, if◌then◌else◌,
  get_elem?,
}
use ded_os.Base.Partial.{◌>>=◌}
use ded_os.Mm.Heap.{Heap, store, kmalloc, kfree}
use ded_os.Mm.Heap.History.{Block}

-- What the caller does: `give_back` and `write` name a block by its place among those it holds.
pub data Op : Type 0 where
  take : ℕ → Op
  give_back : ℕ → Op
  write : ℕ → ℕ → ℕ → Op

unfoldable pub remove {ℓ} : {A : Type ℓ} → ℕ → List A → List A
remove i [] = []
remove zero (b ∷ bs) = bs
remove (suc i) (b ∷ bs) = b ∷ remove i bs

abbrev pub IsRequest : Op → Type 0
IsRequest (take size) = (0 < size) × (size ≤ 1000)
IsRequest (give_back i) = Unit {0}
IsRequest (write i k v) = Unit {0}

abbrev pub New : Block → List Block → Type 0
New b bs = All (λ (c : Block). b.ptr ≢ c.ptr) bs

abbrev pub AllNew : List Block → Type 0
AllNew [] = Unit {0}
AllNew (b ∷ bs) = New b bs × AllNew bs

module _ {P : Type 0} (alloc : P → P × ℕ) (release : P → ℕ → P) where
  -- A write reaches the block if its offset is below the size.
  unfoldable pub step : ℕ → Op → Heap P × List Block → Option (Heap P × List Block)
  step fuel (take size) (s, held) = do
    (s', ptr) ← kmalloc alloc fuel size s
    some (s', record { ptr = ptr; size = size } ∷ held)
  step fuel (give_back i) (s, held) = elim (get_elem? held i) [
    | none ↦ some (s, held)
    | some b ↦ some (kfree release b.ptr s, remove i held)
  ]
  step fuel (write i k v) (s, held) = elim (get_elem? held i) [
    | none ↦ some (s, held)
    | some b ↦ some (if ltb k b.size then store (b.ptr + k) v s else s, held)
  ]

  unfoldable pub run : ℕ → List Op → Heap P × List Block → Option (Heap P × List Block)
  run fuel [] t = some t
  run fuel (op ∷ ops) t = step fuel op t >>= run (suc fuel) ops
