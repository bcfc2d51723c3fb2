-- ===== src/Mm/Heap/Held.antt =====
-- The blocks that a caller of kernel/src/mm/heap.c holds, as a list.
use ded_os.Base.{ℕ, zero, suc, ◌≡◌, ◌≢◌, sym, some, List, [], ◌∷◌, All, get_elem?}
use mathlib.Core.Path.{subst}
use ded_os.Mm.Heap.Run.{remove, New, AllNew}
use ded_os.Mm.Heap.History.{Block}

pub All-get :
    {A : Type 0} (Q : A → Type 0) (xs : List A) (i : ℕ) {x : A}
    → get_elem? xs i ≡ some x
    → All Q xs
    → Q x
All-get Q [] i e all = cc
All-get Q (y ∷ ys) zero {x} e (q, all) = subst Q (some_eq e) q
  where
    some_eq : some y ≡ some x → y ≡ x
    some_eq e = cc
All-get Q (y ∷ ys) (suc i) e (q, all) = All-get Q ys i e all

pub All-remove :
    {A : Type 0} (Q : A → Type 0) (xs : List A) (i : ℕ) → All Q xs → All Q (remove i xs)
unfolding remove
All-remove Q [] i all = tt
All-remove Q (y ∷ ys) zero (q, all) = all
All-remove Q (y ∷ ys) (suc i) (q, all) = (q, All-remove Q ys i all)

-- The blocks that are left are other ones than the one that was removed.
pub New-remove :
    (xs : List Block) (i : ℕ) {b : Block}
    → get_elem? xs i ≡ some b
    → AllNew xs
    → New b (remove i xs) × AllNew (remove i xs)
unfolding remove
New-remove [] i e all = cc
New-remove (y ∷ ys) zero {b} e (news, all) = (subst (λ y. New y ys) (some_eq e) news, all)
  where
    some_eq : some y ≡ some b → y ≡ b
    some_eq e = cc
New-remove (y ∷ ys) (suc i) {b} e (news, all) =
    let (new, rest) = New-remove ys i e all in
    (
      ((λ e'. All-get (λ c. y.ptr ≢ c.ptr) ys i e news (sym e')), new),
      (All-remove (λ c. y.ptr ≢ c.ptr) ys i news, rest),
    )
