-- ===== src/Acpi/Walk.antt =====
-- The walk of `madt_init`, kernel/src/acpi/madt.c, over the entries of a table.
use ded_os.Base.{
  ℕ, zero, suc, ◌+◌, ◌<◌, ◌≡◌, refl, sym, ◌∙◌, ap, inl, inr, ◌%◌, Bool, true, false, some, List, [],
  ◌∷◌, ◌++◌, arith, length, ltb, ◌==◌, ==-ne, Bool-cases, if◌then◌else◌, if_true, if_false,
}
use ded_os.Acpi.{word32}
use ded_os.Acpi.Madt.{
  Madt, max_cpus, max_isos, read_lapic, read_ioapic, read_iso, read_entry, walk_entries,
}
use ded_os.Acpi.Entries.{
  Entry, lapic, ioapic, iso, other, Holds, Table, enabled, overrides, last_ioapic, fill,
}
use ded_os.Acpi.Counters.{IsCounted, read_entry-IsCounted}

-- What the walk over the entries `es` at `p` makes of `s`.
pub record Reads (m : ℕ → ℕ) (p : ℕ) (es : List Entry) (s s' : Madt) : Type 0 where
  pub lapic_addr : s'.lapic_addr ≡ s.lapic_addr
  pub ids : s'.lapic_ids ≡ fill max_cpus s.lapic_ids (enabled es)
  pub isos : s'.isos ≡ fill max_isos s.isos (overrides m p es)
  pub ioapic :
      (s'.ioapic_addr, s'.ioapic_gsi_base) ≡ last_ioapic (s.ioapic_addr, s.ioapic_gsi_base) es
  pub counted : IsCounted s'

-- What one entry does to each of the variables.
record Adds (ids isos : List ℕ) (io : ℕ × ℕ) (s t : Madt) : Type 0 where
  same_lapic : t.lapic_addr ≡ s.lapic_addr
  new_ids : t.lapic_ids ≡ ids
  new_isos : t.isos ≡ isos
  new_io : (t.ioapic_addr, t.ioapic_gsi_base) ≡ io

abbrev push : ℕ → List ℕ → ℕ → List ℕ
push n xs y = if ltb (length xs) n then xs ++ (y ∷ []) else xs

lapic-Adds :
    (m : ℕ → ℕ) (p : ℕ) (s : Madt)
    → IsCounted s
    → m p ≡ 0
    → Adds
        (if word32 m (p + 4) % 2 == 1 then push max_cpus s.lapic_ids (m (p + 3)) else s.lapic_ids)
        s.isos
        (s.ioapic_addr, s.ioapic_gsi_base)
        s
        (read_entry m p s)
unfolding read_entry read_lapic
lapic-Adds m p s c kind = rw kind (elim (Bool-cases (word32 m (p + 4) % 2 == 1)) [
  | inl on ↦ rw on (elim (Bool-cases (ltb s.cpu_count max_cpus)) [
    | inl room ↦ rw room (record {
      same_lapic = refl;
      new_ids = sym (if_true _ _ _ (ap (λ n. ltb n max_cpus) (sym c.cpus) ∙ room));
      new_isos = refl;
      new_io = refl;
    })
    | inr full ↦ rw full (record {
      same_lapic = refl;
      new_ids = sym (if_false _ _ _ (ap (λ n. ltb n max_cpus) (sym c.cpus) ∙ full));
      new_isos = refl;
      new_io = refl;
    })
  ])
  | inr off ↦ rw off (record { same_lapic = refl; new_ids = refl; new_isos = refl; new_io = refl })
])

iso-Adds :
    (m : ℕ → ℕ) (p : ℕ) (s : Madt)
    → IsCounted s
    → m p ≡ 2
    → Adds s.lapic_ids
        (push max_isos s.isos p)
        (s.ioapic_addr, s.ioapic_gsi_base)
        s
        (read_entry m p s)
unfolding read_entry read_iso
iso-Adds m p s c kind = rw kind (elim (Bool-cases (ltb s.iso_count max_isos)) [
  | inl room ↦ rw room (record {
    same_lapic = refl;
    new_ids = refl;
    new_isos = sym (if_true _ _ _ (ap (λ n. ltb n max_isos) (sym c.overridden) ∙ room));
    new_io = refl;
  })
  | inr full ↦ rw full (record {
    same_lapic = refl;
    new_ids = refl;
    new_isos = sym (if_false _ _ _ (ap (λ n. ltb n max_isos) (sym c.overridden) ∙ full));
    new_io = refl;
  })
])

ioapic-Adds :
    (m : ℕ → ℕ) (p : ℕ) (s : Madt)
    → m p ≡ 1
    → Adds s.lapic_ids s.isos (word32 m (p + 4), word32 m (p + 8)) s (read_entry m p s)
unfolding read_entry read_ioapic
ioapic-Adds m p s kind =
    rw kind (record { same_lapic = refl; new_ids = refl; new_isos = refl; new_io = refl })

other-Adds :
    (m : ℕ → ℕ) (p : ℕ) (s : Madt)
    → 2 < m p
    → Adds s.lapic_ids s.isos (s.ioapic_addr, s.ioapic_gsi_base) s (read_entry m p s)
unfolding read_entry
other-Adds m p s kind =
    rw
      (
        ==-ne (m p) 0 (λ e. omega arith),
        ==-ne (m p) 1 (λ e. omega arith),
        ==-ne (m p) 2 (λ e. omega arith),
      )
      (record { same_lapic = refl; new_ids = refl; new_isos = refl; new_io = refl })

-- The walk behind an entry, put behind what the entry adds.
chain :
    (m : ℕ → ℕ) (p : ℕ) (es es' : List Entry) {ids isos : List ℕ} {io : ℕ × ℕ} {s t s' : Madt}
    → Adds ids isos io s t
    → Reads m (p + m (p + 1)) es t s'
    → fill max_cpus ids (enabled es) ≡ fill max_cpus s.lapic_ids (enabled es')
    → fill max_isos isos (overrides m (p + m (p + 1)) es) ≡ fill max_isos s.isos (overrides m p es')
    → last_ioapic io es ≡ last_ioapic (s.ioapic_addr, s.ioapic_gsi_base) es'
    → Reads m p es' s s'
chain m p es es' a r e1 e2 e3 = record {
  lapic_addr = r.lapic_addr ∙ a.same_lapic;
  ids = r.ids ∙ ap (λ l. fill max_cpus l (enabled es)) a.new_ids ∙ e1;
  isos = r.isos ∙ ap (λ l. fill max_isos l (overrides m (p + m (p + 1)) es)) a.new_isos ∙ e2;
  ioapic = r.ioapic ∙ ap (λ o. last_ioapic o es) a.new_io ∙ e3;
  counted = r.counted;
}

read_entry-Reads :
    (m : ℕ → ℕ) (p : ℕ) (e : Entry) (es : List Entry) (s s' : Madt)
    → IsCounted s
    → Holds m p e
    → Reads m (p + m (p + 1)) es (read_entry m p s) s'
    → Reads m p (e ∷ es) s s'
unfolding enabled overrides last_ioapic fill
read_entry-Reads m p (lapic id flags) es s s' c (kind, at_id, at_flags) r =
    chain m p es (lapic id flags ∷ es) (lapic-Adds m p s c kind) r
      (ap
          (λ f.
            fill max_cpus
              (if f % 2 == 1 then push max_cpus s.lapic_ids (m (p + 3)) else s.lapic_ids)
              (enabled es))
          at_flags
        ∙ ap
            (λ i.
              fill max_cpus (if flags % 2 == 1 then push max_cpus s.lapic_ids i else s.lapic_ids)
                (enabled es))
            at_id
        ∙ split (flags % 2 == 1))
      refl refl
  where
    split :
        (b : Bool)
        → fill max_cpus (if b then push max_cpus s.lapic_ids id else s.lapic_ids) (enabled es)
          ≡ fill max_cpus s.lapic_ids (if b then id ∷ enabled es else enabled es)
    split true = refl
    split false = refl
read_entry-Reads m p (ioapic address base) es s s' c (kind, at_address, at_base) r =
    chain m p es (ioapic address base ∷ es) (ioapic-Adds m p s kind) r refl refl (
      ap (λ x. last_ioapic (x, word32 m (p + 8)) es) at_address
      ∙ ap (λ x. last_ioapic (address, x) es) at_base)
read_entry-Reads m p iso es s s' c kind r =
    chain m p es (iso ∷ es) (iso-Adds m p s c kind) r refl refl refl
read_entry-Reads m p (other kind) es s s' c (at_kind, large) r =
    chain m p es (other kind ∷ es) (other-Adds m p s (omega (arith, at_kind))) r refl refl refl

-- For a table that consists of the entries `es`, the walk ends, and gives the ids of the enabled
-- processors and the addresses of the overrides, in the table's order and the first 16 of each, and the
-- last I/O APIC.
pub walk_entries-Reads :
    (fuel : ℕ) (m : ℕ → ℕ) (p end : ℕ) (es : List Entry) (s : Madt)
    → Table m p end es
    → length es < fuel
    → IsCounted s
    → (s' : Madt) × (walk_entries fuel m p end s ≡ some s') × Reads m p es s s'
walk_entries-Reads zero m p end es s t room c = absurd (omega arith)
walk_entries-Reads (suc fuel) m p end [] s t room c = (
  s,
  unfold walk_entries in if_false _ _ _ (lt_false p end t),
  unfold enabled overrides last_ioapic fill in
      record { lapic_addr = refl; ids = refl; isos = refl; ioapic = refl; counted = c },
)
  where
    lt_false : (a b : ℕ) → a ≡ b → ltb a b ≡ false
    lt_false a b h = ground arith
walk_entries-Reads (suc fuel) m p end (e ∷ es) s (holds, long, before, t) room c =
    let (s', runs, r) =
      walk_entries-Reads fuel m (p + m (p + 1)) end es (read_entry m p s) t (omega arith)
        (read_entry-IsCounted m p s c) in
    (s', step p before ∙ runs, read_entry-Reads m p e es s s' c holds r)
  where
    lt_true : (a b : ℕ) → a < b → ltb a b ≡ true
    lt_true a b h = ground arith

    step :
        (p : ℕ)
        → p < end
        → walk_entries (suc fuel) m p end s
          ≡ walk_entries fuel m (p + m (p + 1)) end (read_entry m p s)
    step p before = unfold walk_entries in if_true _ _ _ (lt_true p end before)
