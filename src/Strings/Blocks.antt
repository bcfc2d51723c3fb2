-- ===== src/Strings/Blocks.antt =====
-- Copying and filling blocks of memory: memcpy, memmove and memset of kernel/src/lib/string.c.
use ded_os.Base.{
  ℕ, zero, suc, ◌+◌, ◌-◌, ◌%◌, ◌≤◌, ◌<◌, ◌≡◌, refl, sym, ◌∙◌, ap, ◌⊎◌, inl, inr, Bool, false, ◌&&◌,
  arith, ltb, leb, ◌==◌, if◌then◌else◌, if_true, if_false, if_both, Bool-cases,
}
use ded_os.Base.Memory.{update, update_self, update_ne}
use ded_os.Strings.{Bytes, copy_up, copy_down, fill_up, memcpy, memmove, memset}

-- The address is one of the `n` from `p` on.
abbrev pub within : ℕ → ℕ → ℕ → Bool
within p n a = leb p a && ltb a (p + n)

-- Memory after the block of `n` bytes at `src` was moved to `dest` at once.
abbrev pub moved : ℕ → ℕ → ℕ → Bytes → Bytes
moved dest src n m a = if within dest n a then m (src + (a - dest)) else m a

-- A cell of the block, and one outside it.
moved_in : (dest src n k : ℕ) (m : Bytes) → k < n → moved dest src n m (dest + k) ≡ m (src + k)
moved_in dest src n k m h =
    if_true (within dest n (dest + k)) _ _ (ground arith)
    ∙ ap (λ j. m (src + j)) {x = dest + k - dest} (omega arith)

moved_out : (dest src n a : ℕ) (m : Bytes) → within dest n a ≡ false → moved dest src n m a ≡ m a
moved_out dest src n a m h = if_false _ _ _ h

-- An address of the block, or one that is not.
within-cases : (p n a : ℕ) → ((k : ℕ) × (k < n) × (a ≡ p + k)) ⊎ (within p n a ≡ false)
within-cases p n a = elim (Bool-cases (within p n a)) [
  | inl h ↦ inl (a - p, ground arith, ground arith)
  | inr h ↦ inr h
]

-- Two memories that agree on a block at its cells and outside it.
module _ (p n : ℕ) {m m' : Bytes} where
  same_by_cells :
      ((k : ℕ) → k < n → m (p + k) ≡ m' (p + k))
      → ((a : ℕ) → within p n a ≡ false → m a ≡ m' a)
      → (a : ℕ) → m a ≡ m' a
  same_by_cells inside outside a = elim (within-cases p n a) [
    | inl (k, h, e) ↦ rw e (inside k h)
    | inr h ↦ outside a h
  ]

-- Upwards is right if no byte is written before it is read.
copy_up-out :
    (n i dest src a : ℕ) (m : Bytes)
    → within (dest + i) n a ≡ false
    → copy_up n i dest src m a ≡ m a
unfolding copy_up
copy_up-out zero i dest src a m h = refl
copy_up-out (suc n) i dest src a m h =
    copy_up-out n (i + 1) dest src a _ (ground arith)
    ∙ update_ne m (dest + i) _ a (λ e. ground arith)

copy_up-in :
    (n i dest src k : ℕ) (m : Bytes)
    → (dest ≤ src) ⊎ (src + i + n ≤ dest + i)
    → k < n
    → copy_up n i dest src m (dest + i + k) ≡ m (src + i + k)
unfolding copy_up
copy_up-in zero i dest src k m apart h = absurd (omega arith)
copy_up-in (suc n) i dest src zero m apart h =
    copy_up-out n (i + 1) dest src (dest + i + 0) _ (ground arith)
    ∙ ap (update m (dest + i) (m (src + i))) (omega arith)
    ∙ update_self m (dest + i) (m (src + i))
    ∙ ap m (omega arith)
copy_up-in (suc n) i dest src (suc k) m apart h =
    ap (copy_up n (i + 1) dest src (update m (dest + i) (m (src + i)))) (omega arith)
    ∙ copy_up-in n (i + 1) dest src k _ (ground arith) (omega arith)
    ∙ update_ne m (dest + i) _ (src + (i + 1) + k) (λ e. ground arith)
    ∙ ap m (omega arith)

-- Downwards is right if the block moves up.
copy_down-out :
    (n dest src a : ℕ) (m : Bytes) → within dest n a ≡ false → copy_down n dest src m a ≡ m a
unfolding copy_down
copy_down-out zero dest src a m h = refl
copy_down-out (suc n) dest src a m h =
    copy_down-out n dest src a _ (ground arith) ∙ update_ne m (dest + n) _ a (λ e. ground arith)

copy_down-in :
    (n dest src k : ℕ) (m : Bytes)
    → src ≤ dest
    → k < n
    → copy_down n dest src m (dest + k) ≡ m (src + k)
unfolding copy_down
copy_down-in zero dest src k m up h = absurd (omega arith)
copy_down-in (suc n) dest src k m up h = elim (Bool-cases (k == n)) [
  | inl e ↦
      copy_down-out n dest src (dest + k) _ (ground arith)
      ∙ ap (update m (dest + n) (m (src + n))) (ground arith)
      ∙ update_self m (dest + n) (m (src + n))
      ∙ ap (λ j. m (src + j)) (ground arith)
  | inr e ↦
      copy_down-in n dest src k _ up (ground arith)
      ∙ update_ne m (dest + n) _ (src + k) (λ same. ground arith)
]

up_moved :
    (dest src n : ℕ) (m : Bytes)
    → (dest ≤ src) ⊎ (src + n ≤ dest)
    → (a : ℕ) → copy_up n 0 dest src m a ≡ moved dest src n m a
up_moved dest src n m apart =
    same_by_cells dest n
      (λ k h.
        ap (copy_up n 0 dest src m) {x = dest + k} {y = dest + 0 + k} (omega arith)
        ∙ copy_up-in n 0 dest src k m (ground arith) h
        ∙ ap m {x = src + 0 + k} {y = src + k} (omega arith)
        ∙ sym (moved_in dest src n k m h))
      (λ a out. copy_up-out n 0 dest src a m (ground arith) ∙ sym (moved_out dest src n a m out))

down_moved :
    (dest src n : ℕ) (m : Bytes)
    → src ≤ dest
    → (a : ℕ) → copy_down n dest src m a ≡ moved dest src n m a
down_moved dest src n m up =
    same_by_cells dest n (λ k h. copy_down-in n dest src k m up h ∙ sym (moved_in dest src n k m h))
      (λ a out. copy_down-out n dest src a m out ∙ sym (moved_out dest src n a m out))

stays_moved : (dest src n : ℕ) (m : Bytes) → src ≡ dest → (a : ℕ) → m a ≡ moved dest src n m a
stays_moved dest src n m e =
    same_by_cells dest n (λ k h. ap (λ p. m (p + k)) (sym e) ∙ sym (moved_in dest src n k m h))
      (λ a out. sym (moved_out dest src n a m out))

-- `memmove` returns `dest` and moves the block as if at once, however the blocks overlap; no other
-- byte changes.
pub memmove-moved :
    (dest src n : ℕ) (m : Bytes)
    → ((memmove dest src n m).1 ≡ dest)
      × ((a : ℕ) → (memmove dest src n m).0 a ≡ moved dest src n m a)
unfolding memmove
memmove-moved dest src n m = (
  if_both (λ (r : Bytes × ℕ). r.1 ≡ dest) (ltb dest src) refl
      (if_both (λ (r : Bytes × ℕ). r.1 ≡ dest) (ltb src dest) refl refl),
  elim (Bool-cases (ltb dest src)) [
    | inl e ↦ λ a.
        ap (λ (r : Bytes × ℕ). r.0 a) (if_true _ _ _ e) ∙ up_moved dest src n m (ground arith) a
    | inr e ↦ elim (Bool-cases (ltb src dest)) [
      | inl h ↦ λ a.
          ap (λ (r : Bytes × ℕ). r.0 a) (if_false _ _ _ e ∙ if_true _ _ _ h)
          ∙ down_moved dest src n m (ground arith) a
      | inr h ↦ λ a.
          ap (λ (r : Bytes × ℕ). r.0 a) (if_false _ _ _ e ∙ if_false _ _ _ h)
          ∙ stays_moved dest src n m (ground arith) a
    ]
  ],
)

-- `memcpy` between blocks that do not overlap returns `dest` and copies the block; no other byte
-- changes.
pub memcpy-moved :
    (dest src n : ℕ) (m : Bytes)
    → (dest + n ≤ src) ⊎ (src + n ≤ dest)
    → ((memcpy dest src n m).1 ≡ dest)
      × ((a : ℕ) → (memcpy dest src n m).0 a ≡ moved dest src n m a)
unfolding memcpy
memcpy-moved dest src n m apart = (refl, up_moved dest src n m (ground arith))

fill_up-filled :
    (n i s c a : ℕ) (m : Bytes)
    → fill_up n i s c m a ≡ (if within (s + i) n a then c % 256 else m a)
unfolding fill_up
fill_up-filled zero i s c a m = sym (if_false (within (s + i) 0 a) _ _ (ground arith))
fill_up-filled (suc n) i s c a m =
    fill_up-filled n (i + 1) s c a (update m (s + i) (c % 256)) ∙ unfold update in ground arith

-- `memset` returns `s`, sets each byte of the block to the low byte of `c`, and changes no other.
pub memset-filled :
    (s c n : ℕ) (m : Bytes)
    → ((memset s c n m).1 ≡ s)
      × ((a : ℕ) → (memset s c n m).0 a ≡ (if within s n a then c % 256 else m a))
unfolding memset
memset-filled s c n m = (
  refl,
  λ a. fill_up-filled n 0 s c a m ∙ ap (λ p. if within p n a then c % 256 else m a) (omega arith),
)
