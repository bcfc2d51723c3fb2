-- ===== src/Acpi/Named.antt =====
-- `acpi_find_table` of kernel/src/acpi/acpi.c against the list of the tables that the XSDT or the RSDT names.
use mathlib.Core.Path.{subst}
use ded_os.Base.{
  ℕ, zero, suc, ◌+◌, ◌*◌, ◌≤◌, ◌<◌, ◌^◌, ◌≡◌, refl, sym, ◌∙◌, ap, ◌≢◌, ◌⊎◌, inl, inr, true, false,
  List, [], ◌∷◌, ◌++◌, length, All, arith, ==_iff, ==-ne, ◌/◌, Bool-cases, if_true, if_false,
}
use ded_os.Base.Word.{add64, sub64}
use ded_os.Acpi.{word32, word64}
use ded_os.Acpi.Find.{Acpi, header_size, has_signature, find_entry, acpi_find_table}

-- The table at `t` has the four characters at `signature`.
pub IsNamed : (ℕ → ℕ) → ℕ → ℕ → Type 0
IsNamed m signature t = (i : ℕ) → i < 4 → m (t + i) ≡ m (signature + i)

-- `t` is the first of the tables `ts` that has the signature.
pub record FirstNamed (m : ℕ → ℕ) (signature : ℕ) (ts : List ℕ) (t : ℕ) : Type 0 where
  pub front : List ℕ
  pub back : List ℕ
  pub split : ts ≡ front ++ (t ∷ back)
  pub named : IsNamed m signature t
  pub earlier : All (λ x. ¬ IsNamed m signature x) front

-- What the search answers: the first table that has the signature, or NULL if no table has it.
abbrev pub Answer : (ℕ → ℕ) → ℕ → List ℕ → ℕ → Type 0
Answer m signature ts t =
    FirstNamed m signature ts t ⊎ ((t ≡ 0) × All (λ x. ¬ IsNamed m signature x) ts)

-- The entries from `i` on are the addresses in `ts`.
abbrev pub Entries : (ℕ → ℕ) → ℕ → List ℕ → Type 0
Entries entry i [] = Unit
Entries entry i (t ∷ ts) = (entry i ≡ t) × Entries entry (i + 1) ts

-- The root table at `root` has a 32-bit length, which covers its header and `n` entries of `width` bytes.
pub record Sized (m : ℕ → ℕ) (root width n : ℕ) : Type 0 where
  pub bounded : word32 m (root + 4) < 2 ^ 32
  pub low : header_size + width * n ≤ word32 m (root + 4)
  pub high : word32 m (root + 4) < header_size + width * (n + 1)

-- The tables that the firmware lists: the XSDT has 64-bit addresses, the RSDT 32-bit physical ones, which
-- the direct map shifts; the XSDT goes before, and without either there is none.
pub data Listed (m : ℕ → ℕ) (s : Acpi) (ts : List ℕ) : Type 0 where
  by_xsdt :
      s.xsdt ≢ 0
      → Sized m s.xsdt 8 (length ts)
      → Entries (λ i. word64 m (s.xsdt + 36 + 8 * i)) 0 ts
      → Listed m s ts
  by_rsdt :
      s.xsdt ≡ 0
      → s.rsdt ≢ 0
      → Sized m s.rsdt 4 (length ts)
      → Entries (λ i. add64 (word32 m (s.rsdt + 36 + 4 * i)) s.hhdm_offset) 0 ts
      → Listed m s ts
  no_root : s.xsdt ≡ 0 → s.rsdt ≡ 0 → ts ≡ [] → Listed m s ts

module _ (m : ℕ → ℕ) (signature : ℕ) where
  has_signature-IsNamed : (t : ℕ) → has_signature m t signature ≡ true → IsNamed m signature t
  unfolding has_signature IsNamed
  has_signature-IsNamed t h zero l =
      let e : m t ≡ m signature = ground arith in
      ap m {y = t} (omega arith) ∙ e ∙ ap m {x = signature} (omega arith)
  has_signature-IsNamed t h (suc zero) l = ground arith
  has_signature-IsNamed t h (suc (suc zero)) l = ground arith
  has_signature-IsNamed t h (suc (suc (suc zero))) l = ground arith
  has_signature-IsNamed t h (suc (suc (suc (suc i)))) l = absurd (omega arith)

  -- A table with the four characters passes the test.
  IsNamed-has_signature : (t : ℕ) → IsNamed m signature t → has_signature m t signature ≡ true
  unfolding has_signature IsNamed
  IsNamed-has_signature t named =
      let first : m t ≡ m signature =
        ap m {x = t} (omega arith) ∙ named 0 (omega arith) ∙ ap m {y = signature} (omega arith) in
      let second = named 1 (omega arith) in
      let third = named 2 (omega arith) in let fourth = named 3 (omega arith) in ground arith

  has_signature-not : (t : ℕ) → has_signature m t signature ≡ false → ¬ IsNamed m signature t
  has_signature-not t h named = let same = IsNamed-has_signature t named in ground (arith, h, same)

  find_entry-Answer :
      (entry : ℕ → ℕ) (i : ℕ) (ts : List ℕ)
      → Entries entry i ts
      → Answer m signature ts (find_entry (length ts) i entry m signature)
  unfolding find_entry
  find_entry-Answer entry i [] laid = inr (refl, tt)
  find_entry-Answer entry i (t ∷ ts) laid =
      elim (Bool-cases (has_signature m (entry i) signature)) [
        | inl here ↦
            let found = if_true _ _ _ here in
            inl (record {
              front = [];
              back = ts;
              split = ap (λ x. x ∷ ts) (sym laid.0 ∙ sym found);
              named =
                  subst (IsNamed m signature) (sym found) (has_signature-IsNamed (entry i) here);
              earlier = tt;
            })
        | inr other ↦
            let later = if_false _ _ _ other in
            let different : ¬ IsNamed m signature t =
              subst (λ x. ¬ IsNamed m signature x) laid.0 (has_signature-not (entry i) other) in
            elim (find_entry-Answer entry (i + 1) ts laid.1) [
              | inl f ↦ inl (record {
                front = t ∷ f.front;
                back = f.back;
                split =
                    ap (λ xs. t ∷ xs) (f.split)
                    ∙ ap (λ x. t ∷ (f.front ++ (x ∷ f.back))) (sym later);
                named = subst (IsNamed m signature) (sym later) f.named;
                earlier = (different, f.earlier);
              })
              | inr (e, none_has) ↦ inr (later ∙ e, (different, none_has))
            ]
      ]

  -- `acpi_find_table` searches the tables that the firmware lists, in the XSDT if there is one and else in
  -- the RSDT, each with entries of its own width and a 32-bit length that covers them, and returns the
  -- first whose four characters are the signature's, or NULL if no table has them or there is neither
  -- root table.
  pub acpi_find_table-Answer :
      (s : Acpi) (ts : List ℕ)
      → Listed m s ts
      → Answer m signature ts (acpi_find_table m signature s)
  unfolding acpi_find_table
  acpi_find_table-Answer s ts (by_xsdt there sized laid) =
      let entry : ℕ → ℕ = λ i. word64 m (s.xsdt + 36 + 8 * i) in
      let count : sub64 (word32 m (s.xsdt + 4)) header_size / 8 ≡ length ts =
        omega (arith, sized.bounded, sized.low, sized.high) in
      subst (Answer m signature ts)
        (sym (
          if_false _ _ _ (==-ne s.xsdt 0 there) ∙ ap (λ n. find_entry n 0 entry m signature) count))
        (find_entry-Answer entry 0 ts laid)
  acpi_find_table-Answer s ts (by_rsdt absent there sized laid) =
      let entry : ℕ → ℕ = λ i. add64 (word32 m (s.rsdt + 36 + 4 * i)) s.hhdm_offset in
      let count : sub64 (word32 m (s.rsdt + 4)) header_size / 4 ≡ length ts =
        omega (arith, sized.bounded, sized.low, sized.high) in
      subst (Answer m signature ts)
        (sym (
          if_true _ _ _ ((==_iff s.xsdt 0).1 absent)
          ∙ if_false _ _ _ (==-ne s.rsdt 0 there)
          ∙ ap (λ n. find_entry n 0 entry m signature) count))
        (find_entry-Answer entry 0 ts laid)
  acpi_find_table-Answer s ts (no_root absent absent' empty) = inr (
    if_true _ _ _ ((==_iff s.xsdt 0).1 absent) ∙ if_true _ _ _ ((==_iff s.rsdt 0).1 absent'),
    subst (All (λ x. ¬ IsNamed m signature x)) (sym empty) tt,
  )
