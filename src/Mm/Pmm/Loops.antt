-- ===== src/Mm/Pmm/Loops.antt =====
-- The loops of `pmm_init` in pmm.c that build the bitmap, each against the set of pages it leaves.
use ded_os.Base.{
  ℕ, zero, suc, ◌+◌, ◌/◌, ◌<◌, ◌≡◌, refl, ◌∙◌, ap, inl, inr, Bool, true, false, not, ◌&&◌, ◌||◌,
  arith, ◌==◌, Bool-cases, List, [], ◌∷◌, ltb, leb,
}
use ded_os.Mm.Pmm.{
  Pmm, bitmap_set, bitmap_clear, Entry, page_size, bitmap_test, claim, release, release_pages,
  release_usable, claim_pages,
}
use ded_os.Mm.Pmm.Count.{Usage, mark, unmark}
use ded_os.Mm.Pmm.Bits.{
  IsValid, claim-IsValid, release-IsValid, bitmap_test-claim, bitmap_test-release,
}

-- `j` is one of the `n` pages from `p` on; a page of an entry that is usable; of any such entry.
abbrev pub in_range : ℕ → ℕ → ℕ → Bool
in_range p n j = leb p j && ltb j (p + n)

abbrev pub in_entry : ℕ → Entry → ℕ → Bool
in_entry usable e j = (e.kind == usable) && in_range (e.base / page_size) (e.size / page_size) j

abbrev pub in_usable : ℕ → List Entry → ℕ → Bool
in_usable usable [] j = false
in_usable usable (e ∷ es) j = in_entry usable e j || in_usable usable es j

-- No page belongs to two usable entries.
abbrev pub Disjoint : ℕ → List Entry → Type 0
Disjoint usable [] = Unit
Disjoint usable (e ∷ es) =
    ((j : ℕ) → in_entry usable e j ≡ true → in_usable usable es j ≡ false) × Disjoint usable es

-- `s'` is valid, has as many pages as `s` and the same bitmap, and the usage `u`.
pub record Becomes (s : Pmm) (u : Usage) (s' : Pmm) : Type 0 where
  pub valid : IsValid s'
  pub total : s'.total_pages ≡ s.total_pages
  pub place : s'.bitmap ≡ s.bitmap
  pub offset : s'.hhdm_offset ≡ s.hhdm_offset
  pub extent : s'.bitmap_size ≡ s.bitmap_size
  pub usage : (j : ℕ) → bitmap_test s' j ≡ u j

release-Becomes :
    {s : Pmm} (i : ℕ)
    → IsValid s
    → i < s.total_pages
    → bitmap_test s i ≡ true
    → Becomes s (unmark (bitmap_test s) i) (release s i)
unfolding release bitmap_clear
release-Becomes {s} i v h used = record {
  valid = release-IsValid i v h used;
  total = refl;
  place = refl;
  offset = refl;
  extent = refl;
  usage = λ j. ap (λ (u : Usage). u j) (bitmap_test-release s i v.bytes);
}

claim-Becomes :
    {s : Pmm} (i : ℕ)
    → IsValid s
    → i < s.total_pages
    → bitmap_test s i ≡ false
    → Becomes s (mark (bitmap_test s) i) (claim s i)
unfolding claim bitmap_set
claim-Becomes {s} i v h free = record {
  valid = claim-IsValid i v h free;
  total = refl;
  place = refl;
  offset = refl;
  extent = refl;
  usage = λ j. ap (λ (u : Usage). u j) (bitmap_test-claim s i v.bytes);
}

-- Two changes in a row.
Becomes-trans :
    {s t r : Pmm} {u v : Usage} (w : Usage)
    → Becomes s u t
    → Becomes t v r
    → ((j : ℕ) → v j ≡ w j)
    → Becomes s w r
Becomes-trans w a b same = record {
  valid = b.valid;
  total = b.total ∙ a.total;
  place = b.place ∙ a.place;
  offset = b.offset ∙ a.offset;
  extent = b.extent ∙ a.extent;
  usage = λ j. b.usage j ∙ same j;
}

-- Pages that are all in use are released one after the other.
release_pages-Becomes :
    (n p : ℕ) {s : Pmm}
    → IsValid s
    → ((j : ℕ) → in_range p n j ≡ true → (j < s.total_pages) × (bitmap_test s j ≡ true))
    → Becomes s (λ j. not (in_range p n j) && bitmap_test s j) (release_pages n p s)
unfolding release_pages unmark
release_pages-Becomes zero p {s} v used = record {
  valid = v;
  total = refl;
  place = refl;
  offset = refl;
  extent = refl;
  usage = λ j. ground arith;
}
release_pages-Becomes (suc n) p {s} v used =
    let (h, here) = used p (ground arith) in
    let a = release-Becomes p v h here in
    let b = release_pages-Becomes n (p + 1) {s = release s p} a.valid (later a) in
    Becomes-trans _ a b (λ j. ground (arith, a.usage j))
  where
    later :
        Becomes s (unmark (bitmap_test s) p) (release s p)
        → (j : ℕ) → in_range (p + 1) n j ≡ true
        → (j < (release s p).total_pages) × (bitmap_test (release s p) j ≡ true)
    later a j h = ground (arith, used j, a.usage j, a.total)

pub claim_pages-Becomes :
    (n p : ℕ) {s : Pmm}
    → IsValid s
    → ((j : ℕ) → in_range p n j ≡ true → (j < s.total_pages) × (bitmap_test s j ≡ false))
    → Becomes s (λ j. in_range p n j || bitmap_test s j) (claim_pages n p s)
unfolding claim_pages mark
claim_pages-Becomes zero p {s} v free = record {
  valid = v;
  total = refl;
  place = refl;
  offset = refl;
  extent = refl;
  usage = λ j. ground arith;
}
claim_pages-Becomes (suc n) p {s} v free =
    let (h, here) = free p (ground arith) in
    let a = claim-Becomes p v h here in
    let b = claim_pages-Becomes n (p + 1) {s = claim s p} a.valid (later a) in
    Becomes-trans _ a b (λ j. ground (arith, a.usage j))
  where
    later :
        Becomes s (mark (bitmap_test s) p) (claim s p)
        → (j : ℕ) → in_range (p + 1) n j ≡ true
        → (j < (claim s p).total_pages) × (bitmap_test (claim s p) j ≡ false)
    later a j h = ground (arith, free j, a.usage j, a.total)

-- The pages of the usable entries are released, entry by entry.
pub release_usable-Becomes :
    (usable : ℕ) (es : List Entry) {s : Pmm}
    → IsValid s
    → Disjoint usable es
    → ((j : ℕ) → in_usable usable es j ≡ true → (j < s.total_pages) × (bitmap_test s j ≡ true))
    → Becomes s (λ j. not (in_usable usable es j) && bitmap_test s j) (release_usable usable es s)
unfolding release_usable
release_usable-Becomes usable [] {s} v d used = record {
  valid = v;
  total = refl;
  place = refl;
  offset = refl;
  extent = refl;
  usage = λ j. refl;
}
release_usable-Becomes usable (e ∷ es) {s} v d used = elim (Bool-cases (e.kind == usable)) [
  | inr other ↦ rw other (release_usable-Becomes usable es v d.1 (λ j h. used j (ground arith)))
  | inl hit ↦
      let a = release_pages-Becomes size base v (λ j h. used j (ground arith)) in
      let rest = release_usable-Becomes usable es {s = release_pages size base s} a.valid d.1 in
      let b = rest (λ j h. ground (arith, used j, a.usage j, a.total, d.0 j)) in
      rw hit (Becomes-trans _ a b (λ j. ground (arith, a.usage j)))
]
  where
    base : ℕ
    base = e.base / page_size

    size : ℕ
    size = e.size / page_size
