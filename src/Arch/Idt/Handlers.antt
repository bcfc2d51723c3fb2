-- ===== src/Arch/Idt/Handlers.antt =====
-- The handlers that the processor finds in the table that kernel/src/arch/x86_64/idt.c builds.
use ded_os.Base.{
  ℕ, zero, suc, ◌+◌, ◌*◌, ◌^◌, ◌≤◌, ◌<◌, ◌≡◌, refl, ◌∙◌, ap, false, ◌&&◌, arith, ltb, leb,
}
use ded_os.Base.Memory.{update, update_self, update_ne}
use ded_os.Arch.Idt.{IdtEntry, Idt, gate, idt_set_entry, set_entries, idt_init}

-- The address that the processor reads out of a gate.
abbrev pub handler_of : IdtEntry → ℕ
handler_of e = e.isr_low + e.isr_mid * 2 ^ 16 + e.isr_high * 2 ^ 32

set_entries-out :
    (n i base v : ℕ) (stubs : ℕ → ℕ) (idt : Idt)
    → (leb (base + i) v && ltb v (base + i + n)) ≡ false
    → set_entries n i base stubs idt v ≡ idt v
unfolding set_entries idt_set_entry
set_entries-out zero i base v stubs idt h = refl
set_entries-out (suc n) i base v stubs idt h =
    set_entries-out n (i + 1) base v stubs _ (ground arith)
    ∙ update_ne idt (base + i) _ v (λ e. ground arith)

set_entries-in :
    (n i base k : ℕ) (stubs : ℕ → ℕ) (idt : Idt)
    → k < n
    → set_entries n i base stubs idt (base + i + k) ≡ gate (stubs (i + k)) 0x8E
unfolding set_entries idt_set_entry
set_entries-in zero i base k stubs idt h = absurd (omega arith)
set_entries-in (suc n) i base zero stubs idt h =
    set_entries-out n (i + 1) base (base + i + 0) stubs _ (ground arith)
    ∙ ap (update idt (base + i) (gate (stubs i) 0x8E)) {x = base + i + 0} {y = base + i}
        (omega arith)
    ∙ update_self idt (base + i) _
    ∙ ap (λ j. gate (stubs j) 0x8E) {x = i} {y = i + 0} (omega arith)
set_entries-in (suc n) i base (suc k) stubs idt h =
    ap (set_entries n (i + 1) base stubs (update idt (base + i) (gate (stubs i) 0x8E)))
      {x = base + i + suc k} {y = base + (i + 1) + k} (omega arith)
    ∙ set_entries-in n (i + 1) base k stubs _ (omega arith)
    ∙ ap (λ j. gate (stubs j) 0x8E) {x = i + 1 + k} {y = i + suc k} (omega arith)

set_entries-at :
    (n base k v : ℕ) (stubs : ℕ → ℕ) (idt : Idt)
    → k < n
    → base + k ≡ v
    → set_entries n 0 base stubs idt v ≡ gate (stubs k) 0x8E
set_entries-at n base k v stubs idt h e =
    ap (set_entries n 0 base stubs idt) {x = v} {y = base + 0 + k} (omega arith)
    ∙ set_entries-in n 0 base k stubs idt h
    ∙ ap (λ j. gate (stubs j) 0x8E) {x = 0 + k} {y = k} (omega arith)

handler_of-gate : (addr flags : ℕ) → addr < 2 ^ 64 → handler_of (gate addr flags) ≡ addr
handler_of-gate addr flags h = omega arith

-- After `idt_init`, with stubs at 64-bit addresses, the processor finds the exception stubs at the
-- vectors 0 to 31, the interrupt stubs at 32 to 47, and every other gate as it was.
pub idt_init-handlers :
    (isr irq : ℕ → ℕ) (idt : Idt)
    → ((i : ℕ) → isr i < 2 ^ 64)
    → ((i : ℕ) → irq i < 2 ^ 64)
    → ((v : ℕ) → v < 32 → handler_of (idt_init isr irq idt v) ≡ isr v)
      × ((v : ℕ) → v < 16 → handler_of (idt_init isr irq idt (32 + v)) ≡ irq v)
      × ((v : ℕ) → 48 ≤ v → idt_init isr irq idt v ≡ idt v)
unfolding idt_init
idt_init-handlers isr irq idt small_isr small_irq = (
  λ v h.
      ap handler_of (
        set_entries-out 16 0 32 v irq _ (ground arith)
        ∙ set_entries-at 32 0 v v isr idt h (omega arith))
      ∙ handler_of-gate (isr v) 0x8E (small_isr v),
  λ v h.
      ap handler_of (set_entries-at 16 32 v (32 + v) irq _ h refl)
      ∙ handler_of-gate (irq v) 0x8E (small_irq v),
  λ v h.
      set_entries-out 16 0 32 v irq _ (ground arith)
      ∙ set_entries-out 32 0 0 v isr idt (ground arith),
)
