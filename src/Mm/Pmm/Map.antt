-- ===== src/Mm/Pmm/Map.antt =====
-- The boot loader's memory map as `pmm_init` of pmm.c reads it: the highest end, the first entry that
-- holds the bitmap, and the pages of the usable entries.
use mathlib.Core.Option.{some-injective}
use ded_os.Base.{
  ℕ, ◌+◌, ◌/◌, ◌%◌, ◌^◌, ◌≤◌, ◌<◌, ◌≡◌, ap, inl, inr, true, ◌&&◌, arith, ◌==◌, if◌then◌else◌,
  Bool-cases, List, [], ◌∷◌, All, ltb, leb, Option, none, some,
}
use ded_os.Base.Word.{add64}
use ded_os.Mm.Pmm.{Pmm, Entry, page_size, highest_end, place_bitmap}
use ded_os.Mm.Pmm.Loops.{in_entry, in_usable}

module _ (usable : ℕ) where
  -- What the boot protocol says of an entry that is usable: whole pages, in the address space.
  abbrev pub IsPaged : ℕ → Entry → Type 0
  IsPaged hhdm e =
      e.kind ≡ usable
      → (e.base % page_size ≡ 0)
        × (e.size % page_size ≡ 0)
        × (e.base + hhdm + e.size < 2 ^ 64)
        × (0 < e.base + hhdm)

  -- The first usable entry of at least `n` bytes.
  abbrev pub first_fit : ℕ → List Entry → Option Entry
  first_fit n [] = none
  first_fit n (e ∷ es) = if e.kind == usable && leb n e.size then some e else first_fit n es

  highest_end-ge : (es : List Entry) (h : ℕ) → h ≤ highest_end usable es h
  unfolding highest_end
  highest_end-ge [] h = omega arith
  highest_end-ge (e ∷ es) h = omega (arith, highest_end-ge es _, step)
    where
      step :
          h ≤ (if e.kind == usable && ltb h (add64 e.base e.size) then add64 e.base e.size else h)
      step = ground arith

  pub highest_end-lt : (es : List Entry) (h : ℕ) → h < 2 ^ 64 → highest_end usable es h < 2 ^ 64
  unfolding highest_end
  highest_end-lt [] h l = l
  highest_end-lt (e ∷ es) h l = highest_end-lt es _ (ground arith)

  -- Every page of a usable entry ends below the highest end.
  pub in_usable-lt :
      (hhdm : ℕ) (es : List Entry) (h j : ℕ)
      → All (IsPaged hhdm) es
      → in_usable usable es j ≡ true
      → j < highest_end usable es h / page_size
  unfolding highest_end
  in_usable-lt hhdm [] h j ok inside = absurd (ground arith)
  in_usable-lt hhdm (e ∷ es) h j ok inside = elim (Bool-cases (in_entry usable e j)) [
    | inl here ↦ ground (
      arith,
      ok.0,
      highest_end-ge es
          (if e.kind == usable && ltb h (add64 e.base e.size) then add64 e.base e.size else h),
    )
    | inr other ↦ in_usable-lt hhdm es _ j ok.1 (ground arith)
  ]

  -- The bitmap is placed at the first entry that holds it.
  pub place_bitmap-first_fit :
      (es : List Entry) (s : Pmm) {e : Entry}
      → first_fit s.bitmap_size es ≡ some e
      → place_bitmap usable es s ≡ record s { bitmap = add64 e.base s.hhdm_offset }
  unfolding place_bitmap
  place_bitmap-first_fit [] s found = cc
  place_bitmap-first_fit (e ∷ es) s found =
      elim (Bool-cases (e.kind == usable && leb s.bitmap_size e.size)) [
        | inl hit ↦ rw hit (
            ap (λ (x : Entry). record s { bitmap = add64 x.base s.hhdm_offset })
              (some-injective _ _ (rw hit at found)))
        | inr miss ↦ rw miss (place_bitmap-first_fit es s (rw miss at found))
      ]

  -- Its pages lie in a usable entry, which is whole pages.
  pub first_fit-in_usable :
      (hhdm : ℕ) (es : List Entry) (n : ℕ) {e : Entry}
      → All (IsPaged hhdm) es
      → first_fit n es ≡ some e
      → (e.kind ≡ usable)
        × IsPaged hhdm e
        × (n ≤ e.size)
        × ((j : ℕ) → in_entry usable e j ≡ true → in_usable usable es j ≡ true)
  first_fit-in_usable hhdm [] n ok found = absurd (ground arith)
  first_fit-in_usable hhdm (e' ∷ es) n {e} ok found =
      elim (Bool-cases (e'.kind == usable && leb n e'.size)) [
        | inl hit ↦
            let same : e' ≡ e = some-injective _ _ (rw hit at found) in
            rw (← same) (ground arith, ok.0, ground arith, λ j h. ground arith)
        | inr miss ↦
            let (k, paged, fits, inside) =
              first_fit-in_usable hhdm es n {e = e} ok.1 (rw miss at found) in
            (k, paged, fits, λ j h. ground (arith, inside j))
      ]
