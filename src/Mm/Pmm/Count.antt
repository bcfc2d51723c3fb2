-- ===== src/Mm/Pmm/Count.antt =====
-- The number of free pages of an abstract page set, and how it changes when one page does.
use mathlib.Core.Path.{fun_ext}
use ded_os.Base.{
  ℕ, zero, suc, ◌+◌, ◌≤◌, ◌<◌, ◌≡◌, refl, inl, inr, Bool, true, false, not, ◌&&◌, ◌||◌, arith, ◌==◌,
  ==_iff, ==_self, if◌then◌else◌, Bool-cases,
}

-- Which pages are in use.
abbrev pub Usage : Type 0
Usage = ℕ → Bool

unfoldable pub mark : Usage → ℕ → Usage
mark u i j = (j == i) || u j

unfoldable pub unmark : Usage → ℕ → Usage
unmark u i j = not (j == i) && u j

-- The pages below `n` that are not in use.
unfoldable pub count_free : Usage → ℕ → ℕ
count_free u zero = 0
count_free u (suc n) = (if u n then 0 else 1) + count_free u n

pub count_free-le : (u : Usage) (n : ℕ) → count_free u n ≤ n
unfolding count_free
count_free-le u zero = omega arith
count_free-le u (suc n) = ground (arith, count_free-le u n)

-- Pages from `n` on do not count.
count_free-mark_above : (u : Usage) (i n : ℕ) → n ≤ i → count_free (mark u i) n ≡ count_free u n
unfolding count_free mark
count_free-mark_above u i zero h = refl
count_free-mark_above u i (suc n) h = ground (arith, count_free-mark_above u i n)

count_free-unmark_above : (u : Usage) (i n : ℕ) → n ≤ i → count_free (unmark u i) n ≡ count_free u n
unfolding count_free unmark
count_free-unmark_above u i zero h = refl
count_free-unmark_above u i (suc n) h = ground (arith, count_free-unmark_above u i n)

pub count_free-mark :
    (u : Usage) (i n : ℕ) → i < n → u i ≡ false → count_free (mark u i) n + 1 ≡ count_free u n
unfolding count_free mark
count_free-mark u i zero h free = absurd (omega arith)
count_free-mark u i (suc n) h free =
    ground (arith, count_free-mark u i n, count_free-mark_above u i n)

pub count_free-unmark :
    (u : Usage) (i n : ℕ) → i < n → u i ≡ true → count_free (unmark u i) n ≡ count_free u n + 1
unfolding count_free unmark
count_free-unmark u i zero h used = absurd (omega arith)
count_free-unmark u i (suc n) h used =
    ground (arith, count_free-unmark u i n, count_free-unmark_above u i n)

-- A full set has no free page, and a set with none is full.
pub count_free-full : (u : Usage) (n : ℕ) → ((j : ℕ) → j < n → u j ≡ true) → count_free u n ≡ 0
unfolding count_free
count_free-full u zero full = refl
count_free-full u (suc n) full =
    ground (arith, full n, count_free-full u n (λ j h. full j (omega arith)))

pub full_of_count_free : (u : Usage) (n j : ℕ) → count_free u n ≡ 0 → j < n → u j ≡ true
unfolding count_free
full_of_count_free u zero j e h = absurd (omega arith)
full_of_count_free u (suc n) j e h = ground (arith, full_of_count_free u n j)

-- Freeing a free page, and freeing the page just taken, change nothing.
pub unmark_free : (u : Usage) (i : ℕ) → u i ≡ false → unmark u i ≡ u
unfolding unmark
unmark_free u i free = fun_ext λ j. unmark_at j
  where
    unmark_at : (j : ℕ) → (not (j == i) && u j) ≡ u j
    unmark_at j = elim (Bool-cases (j == i)) [
      | inl e ↦ let e' : j ≡ i = (==_iff j i).0 e in rw (e', free, ==_self i)
      | inr e ↦ rw e
    ]

pub unmark-mark : (u : Usage) (i : ℕ) → u i ≡ false → unmark (mark u i) i ≡ u
unfolding unmark mark
unmark-mark u i free = fun_ext λ j. unmark_at j
  where
    unmark_at : (j : ℕ) → (not (j == i) && ((j == i) || u j)) ≡ u j
    unmark_at j = elim (Bool-cases (j == i)) [
      | inl e ↦ let e' : j ≡ i = (==_iff j i).0 e in rw (e', free, ==_self i)
      | inr e ↦ rw e
    ]
