-- ===== src/Base/Memory.antt =====
-- Memory as a function from addresses to cells, with a write.
use Prim.Native.Nat.{ℕ}
use mathlib.Core.Path.{◌≡◌, refl, sym, fun_ext}
use mathlib.Core.Logic.{◌≢◌, inl, inr}
use native.Mathlib.Omega.{arith}
use ded_os.Base.Tests.{◌==◌, ==-ne, ==_self, ==_iff, if◌then◌else◌, Bool-cases}

module _ {ℓ} {A : Type ℓ} where
  unfoldable pub update : (ℕ → A) → ℕ → A → ℕ → A
  update m p v q = if q == p then v else m q

  pub update_self : (m : ℕ → A) (p : ℕ) (v : A) → update m p v p ≡ v
  unfolding update
  update_self m p v = rw (==_self p)

  pub update_ne : (m : ℕ → A) (p : ℕ) (v : A) (q : ℕ) → q ≢ p → update m p v q ≡ m q
  unfolding update
  update_ne m p v q h = rw (==-ne q p h)

  pub update-update : (m : ℕ → A) (p : ℕ) (v w : A) → update (update m p v) p w ≡ update m p w
  unfolding update
  update-update m p v w = fun_ext λ q. ground arith

-- A write of what is there.
pub update_same {ℓ} : {A : Type ℓ} (m : ℕ → A) (p : ℕ) (v : A) → m p ≡ v → update m p v ≡ m
unfolding update
update_same m p v e = fun_ext λ q. elim (Bool-cases (q == p)) [
  | inl h ↦ let h' : q ≡ p = (==_iff q p).0 h in rw (h', ==_self p) (sym e)
  | inr h ↦ rw h refl
]

-- A write that keeps what `f` reads of the cell keeps it everywhere.
pub update-read {ℓ κ} :
    {A : Type ℓ} {B : Type κ} (f : A → B) (m : ℕ → A) (p : ℕ) (v : A) (q : ℕ)
    → f v ≡ f (m p)
    → f (update m p v q) ≡ f (m q)
unfolding update
update-read f m p v q e = elim (Bool-cases (q == p)) [
  | inl h ↦ let h' : q ≡ p = (==_iff q p).0 h in rw (h', ==_self p) e
  | inr h ↦ rw h
]
