-- ===== src/Mm/Vmm/Tree.antt =====
-- The tables of kernel/src/mm/vmm.c as a tree: each table belongs to one path of indices from the
-- root, and the pages of the tables are held.
use ded_os.Base.{
  ℕ, zero, suc, ◌+◌, ◌-◌, ◌*◌, ◌/◌, ◌%◌, ◌^◌, ◌≤◌, ◌<◌, ◌≡◌, refl, ◌≢◌, ◌∙◌, ap, true, Option, some,
  List, [], ◌∷◌, arith, if◌then◌else◌, length, All,
}
use ded_os.Base.Memory.{update, update_self, update_ne}
use ded_os.Mm.Vmm.{Vmm, is_present, frame_of, entry, target, clear_entries}
use ded_os.Mm.Vmm.Frames.{Frames}

-- The path of a table, the last index first.
abbrev pub Owner : Type 0
Owner = ℕ → Option (List ℕ)

abbrev pub Indices : List ℕ → Type 0
Indices js = All (λ j. j < 512) js

pub record IsTree {P : Type 0} {alloc : P → P × ℕ} (f : Frames P alloc) (own : Owner) (s : Vmm P)
    : Type 0 where
  pub ready : f.IsReady s.frames
  pub offset_whole : s.hhdm_offset % 4096 ≡ 0
  pub offset_some : 0 < s.hhdm_offset
  pub offset_room : s.hhdm_offset + f.limit ≤ 2 ^ 64
  pub whole : (t : ℕ) (p : List ℕ) → own t ≡ some p → t % 4096 ≡ 0
  pub mapped : (t : ℕ) (p : List ℕ) → own t ≡ some p → s.hhdm_offset ≤ t
  pub held :
      (t : ℕ) (p : List ℕ) → own t ≡ some p → f.held s.frames ((t - s.hhdm_offset) / 4096) ≡ true
  pub child :
      (t : ℕ) (p : List ℕ) (i : ℕ)
      → own t ≡ some p
      → length p < 3
      → i < 512
      → is_present (entry s t i) ≡ true
      → own (target s (entry s t i)) ≡ some (i ∷ p)

-- The page that the path of indices leads to from table `t`, 0 if a table on the way is missing.
unfoldable pub walk : {P : Type 0} → Vmm P → ℕ → List ℕ → ℕ
walk s t [] = 0
walk s t (i ∷ js) = elim js [
  | [] ↦ frame_of (entry s t i)
  | j ∷ rest ↦ if is_present (entry s t i) then walk s (target s (entry s t i)) js else 0
]

-- Clearing: no other cell changes, and the cells are 0.
pub clear_entries-out :
    (n i c a : ℕ) (m : ℕ → ℕ)
    → ((k : ℕ) → k < n → a ≢ c + 8 * (i + k))
    → clear_entries n i c m a ≡ m a
unfolding clear_entries
clear_entries-out zero i c a m h = refl
clear_entries-out (suc n) i c a m h =
    clear_entries-out n (i + 1) c a _ (λ k l e. h (k + 1) (omega arith) (e ∙ omega arith))
    ∙ update_ne m (c + 8 * i) 0 a (λ e. h 0 (omega arith) (e ∙ omega arith))

clear_entries-at : (n i c k : ℕ) (m : ℕ → ℕ) → k < n → clear_entries n i c m (c + 8 * (i + k)) ≡ 0
unfolding clear_entries
clear_entries-at zero i c k m h = absurd (omega arith)
clear_entries-at (suc n) i c zero m h =
    clear_entries-out n (i + 1) c (c + 8 * (i + 0)) _ (λ k l e. omega arith)
    ∙ ap (update m (c + 8 * i) 0) {x = c + 8 * (i + 0)} {y = c + 8 * i} (omega arith)
    ∙ update_self m (c + 8 * i) 0
clear_entries-at (suc n) i c (suc k) m h =
    ap (clear_entries n (i + 1) c (update m (c + 8 * i) 0)) {x = c + 8 * (i + suc k)}
      {y = c + 8 * (i + 1 + k)} (omega arith)
    ∙ clear_entries-at n (i + 1) c k _ (omega arith)

pub clear_entries-in : (n c k : ℕ) (m : ℕ → ℕ) → k < n → clear_entries n 0 c m (c + 8 * k) ≡ 0
clear_entries-in n c k m h =
    ap (clear_entries n 0 c m) {x = c + 8 * k} {y = c + 8 * (0 + k)} (omega arith)
    ∙ clear_entries-at n 0 c k m h

-- Entries of different places of whole tables are different cells.
pub cells_apart :
    (t i u j : ℕ)
    → t % 4096 ≡ 0
    → u % 4096 ≡ 0
    → i < 512
    → j < 512
    → t + 8 * i ≡ u + 8 * j
    → (t ≡ u) × (i ≡ j)
cells_apart t i u j ht hu hi hj e = (omega arith, omega arith)
