-- ===== src/Acpi/Counters.antt =====
-- The counters of `madt_init`, kernel/src/acpi/madt.c, whatever the bytes of the table are.
use ded_os.Base.{
  ℕ, zero, suc, ◌+◌, ◌≤◌, ◌<◌, ◌≡◌, refl, ◌∙◌, ap, inl, inr, ◌%◌, true, none, some, [], ◌∷◌, arith,
  length, length-append, ltb, ltb→lt, ◌-◌, ◌==◌, Bool-cases, if_true, if_false, ◌⊎◌, inr, ==_iff,
}
use ded_os.Acpi.{word32}
use ded_os.Acpi.Madt.{
  Madt, max_cpus, max_isos, read_lapic, read_ioapic, read_iso, read_entry, walk_entries,
}

-- The counters are the lengths of what is in use, and never pass the ends of the arrays.
pub record IsCounted (s : Madt) : Type 0 where
  pub cpus : s.cpu_count ≡ length s.lapic_ids
  pub cpus_fit : s.cpu_count ≤ max_cpus
  pub overridden : s.iso_count ≡ length s.isos
  pub isos_fit : s.iso_count ≤ max_isos

pub read_lapic-IsCounted :
    (m : ℕ → ℕ) (p : ℕ) (s : Madt) → IsCounted s → IsCounted (read_lapic m p s)
unfolding read_lapic
read_lapic-IsCounted m p s c = elim (Bool-cases (word32 m (p + 4) % 2 == 1)) [
  | inl on ↦ rw on (elim (Bool-cases (ltb s.cpu_count max_cpus)) [
    | inl room ↦ rw room (record {
      cpus = omega (
        arith,
        c.cpus,
        length-append s.lapic_ids (m (p + 3) ∷ []),
        ltb→lt s.cpu_count max_cpus room,
      );
      cpus_fit = omega (arith, ltb→lt s.cpu_count max_cpus room);
      overridden = c.overridden;
      isos_fit = c.isos_fit;
    })
    | inr full ↦ rw full c
  ])
  | inr off ↦ rw off c
]

pub read_iso-IsCounted : (p : ℕ) (s : Madt) → IsCounted s → IsCounted (read_iso p s)
unfolding read_iso
read_iso-IsCounted p s c = elim (Bool-cases (ltb s.iso_count max_isos)) [
  | inl room ↦ rw room (record {
    cpus = c.cpus;
    cpus_fit = c.cpus_fit;
    overridden =
        omega
          (arith, c.overridden, length-append s.isos (p ∷ []), ltb→lt s.iso_count max_isos room);
    isos_fit = omega (arith, ltb→lt s.iso_count max_isos room);
  })
  | inr full ↦ rw full c
]

pub read_ioapic-IsCounted :
    (m : ℕ → ℕ) (p : ℕ) (s : Madt) → IsCounted s → IsCounted (read_ioapic m p s)
unfolding read_ioapic
read_ioapic-IsCounted m p s c = record {
  cpus = c.cpus;
  cpus_fit = c.cpus_fit;
  overridden = c.overridden;
  isos_fit = c.isos_fit;
}

pub read_entry-IsCounted :
    (m : ℕ → ℕ) (p : ℕ) (s : Madt) → IsCounted s → IsCounted (read_entry m p s)
unfolding read_entry
read_entry-IsCounted m p s c = elim (Bool-cases (m p == 0)) [
  | inl zero_kind ↦ rw zero_kind (read_lapic-IsCounted m p s c)
  | inr k0 ↦ rw k0 (elim (Bool-cases (m p == 1)) [
    | inl one_kind ↦ rw one_kind (read_ioapic-IsCounted m p s c)
    | inr k1 ↦ rw k1 (elim (Bool-cases (m p == 2)) [
      | inl two_kind ↦ rw two_kind (read_iso-IsCounted p s c)
      | inr k2 ↦ rw k2 c
    ])
  ])
]

-- An entry of length 0 before the end of the table keeps the walk where it is: it never ends.
walk_entries-diverges :
    (fuel : ℕ) (m : ℕ → ℕ) (ptr end : ℕ) (s : Madt)
    → ptr < end
    → m (ptr + 1) ≡ 0
    → walk_entries fuel m ptr end s ≡ none
unfolding walk_entries
walk_entries-diverges zero m ptr end s before stays = refl
walk_entries-diverges (suc fuel) m ptr end s before stays =
    if_true _ _ _ (lt_true ptr end before)
    ∙ ap (λ p. walk_entries fuel m p end (read_entry m ptr s)) {y = ptr} (omega (arith, stays))
    ∙ walk_entries-diverges fuel m ptr end (read_entry m ptr s) before stays
  where
    lt_true : (a b : ℕ) → a < b → ltb a b ≡ true
    lt_true a b h = ground arith

-- The walk ends, and its counters count what the arrays hold, which is 16 at most.
pub record Ends (fuel : ℕ) (m : ℕ → ℕ) (ptr end : ℕ) (s : Madt) : Type 0 where
  pub outcome : Madt
  pub runs : walk_entries fuel m ptr end s ≡ some outcome
  pub counted : IsCounted outcome

-- The walk comes to an entry of length 0, and no fuel is enough for it.
pub record IsStuck (m : ℕ → ℕ) (ptr end : ℕ) (s : Madt) : Type 0 where
  pub at : ℕ
  pub low : ptr ≤ at
  pub high : at < end
  pub no_length : m (at + 1) ≡ 0
  pub forever : (fuel : ℕ) → walk_entries fuel m ptr end s ≡ none

-- From counters that count what the arrays hold, at most 16 each, and whatever the bytes from `ptr` to
-- `end` are, the walk over them either ends, with one more round than there are bytes, and the counters
-- count what the arrays hold, at most 16 each; or it comes to an entry of length 0 before `end`, and with
-- no number of rounds it ends.
pub walk_entries-IsCounted :
    (fuel : ℕ) (m : ℕ → ℕ) (ptr end : ℕ) (s : Madt)
    → IsCounted s
    → end - ptr < fuel
    → Ends fuel m ptr end s ⊎ IsStuck m ptr end s
unfolding walk_entries
walk_entries-IsCounted zero m ptr end s c enough = absurd (omega arith)
walk_entries-IsCounted (suc fuel) m ptr end s c enough = elim (Bool-cases (ltb ptr end)) [
  | inr done ↦ inl (record { outcome = s; runs = if_false _ _ _ done; counted = c })
  | inl more ↦ elim (Bool-cases (m (ptr + 1) == 0)) [
    | inl stays ↦
        let before = ltb→lt ptr end more in
        let none_long = (==_iff (m (ptr + 1)) 0).0 stays in
        inr (record {
          at = ptr;
          low = omega arith;
          high = before;
          no_length = none_long;
          forever = λ k. walk_entries-diverges k m ptr end s before none_long;
        })
    | inr moves ↦
        let next = read_entry m ptr s in
        let some_long : 0 < m (ptr + 1) = ground (arith, moves) in
        elim (walk_entries-IsCounted fuel m (ptr + m (ptr + 1)) end next
          (read_entry-IsCounted m ptr s c)
          (omega (arith, some_long, enough, ltb→lt ptr end more))) [
            | inl e ↦ inl (record {
              outcome = e.outcome;
              runs = if_true _ _ _ more ∙ e.runs;
              counted = e.counted;
            })
            | inr stuck ↦ inr (record {
              at = stuck.at;
              low = omega (arith, stuck.low);
              high = stuck.high;
              no_length = stuck.no_length;
              forever = λ k. later k more stuck.forever;
            })
          ]
  ]
]
  where
    later :
        (k : ℕ)
        → ltb ptr end ≡ true
        → ((k : ℕ) → walk_entries k m (ptr + m (ptr + 1)) end (read_entry m ptr s) ≡ none)
        → walk_entries k m ptr end s ≡ none
    later zero more forever = refl
    later (suc k) more forever = if_true _ _ _ more ∙ forever k
