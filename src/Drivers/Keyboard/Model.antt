-- ===== src/Drivers/Keyboard/Model.antt =====
-- What the keyboard promises: a queue of characters and two flags, changed by the key that each
-- scancode names; and that kernel/src/drivers/keyboard.c implements it.
use Prim.Native.Nat.{bit_and}
use ded_os.Base.{
  ℕ, ◌+◌, ◌-◌, ◌%◌, ◌≤◌, ◌<◌, ◌≡◌, refl, sym, ◌∙◌, ap, inl, inr, Bool, true, false, not, ◌||◌, List,
  [], ◌∷◌, ◌++◌, arith, leb, ltb, ◌==◌, if◌then◌else◌, if_map, if_true, if_false, if_both,
  Bool-cases, get_or, length,
}
use ded_os.Base.BitOps.{test_bit}
use ded_os.Drivers.Keyboard.{
  Keyboard, scancode_table, scancode_table_shift, buf_push, push_key, key_pressed, key_released,
  keyboard_handler,
}
use ded_os.Drivers.Keyboard.Ring.{IsRing, contents, count, buf_push-IsRing, buf_push-contents}
use ded_os.Drivers.Keyboard.Keys.{test_bit-released, bit_and-released, get_or-past}

pub record Typing : Type 0 where
  pub queue : List ℕ
  pub shift : Bool
  pub caps : Bool

abbrev pub view : Keyboard → Typing
view s = record { queue = contents s; shift = s.shift_pressed; caps = s.caps_lock }

-- The character of a key, 0 if it has none: of the upper table if just one of the flags is set.
abbrev pub char_of : Typing → ℕ → ℕ
char_of v code =
    get_or
      (if (if v.shift then not v.caps else v.caps) then scancode_table_shift else scancode_table)
      code 0

-- The queue holds at most 255 characters.
unfoldable pub enqueue : ℕ → Typing → Typing
enqueue c v = record v { queue = if length v.queue == 255 then v.queue else v.queue ++ (c ∷ []) }

unfoldable pub press : ℕ → Typing → Typing
press code v =
    let c = char_of v code in
    if (code == 0x2A) || (code == 0x36)
    then record v { shift = true }
    else if (code == 0xAA) || (code == 0xB6)
    then record v { shift = false }
    else if code == 0x3A
    then record v { caps = not v.caps }
    else if c == 0
    then v
    else enqueue c v

module _ {s : Keyboard} (r : IsRing s) where
  buf_push-view : (c : ℕ) → view (buf_push c s) ≡ enqueue c (view s)
  unfolding enqueue
  buf_push-view c =
      flags
      ∙ ap (λ q. record { queue = q; shift = s.shift_pressed; caps = s.caps_lock })
          (buf_push-contents r c)
    where
      flags :
          view (buf_push c s)
          ≡ record { queue = contents (buf_push c s); shift = s.shift_pressed; caps = s.caps_lock }
      flags =
          unfold buf_push in
          if_both
            (λ w.
              view w ≡ record { queue = contents w; shift = s.shift_pressed; caps = s.caps_lock })
            ((s.buf_head + 1) % 256 == s.buf_tail) refl refl

  push_key-view :
      (code : ℕ)
      → view (push_key code s)
        ≡ (if char_of (view s) code == 0 then view s else enqueue (char_of (view s) code) (view s))
  unfolding push_key
  push_key-view code =
      if_map view (char_of (view s) code == 0) refl (buf_push-view (char_of (view s) code))

  no_char : (code : ℕ) → length scancode_table ≤ code → char_of (view s) code ≡ 0
  no_char code h =
      if_both (λ (table : List ℕ). get_or table code 0 ≡ 0)
        (if s.shift_pressed then not s.caps_lock else s.caps_lock)
        (get_or-past scancode_table_shift code h) (get_or-past scancode_table code h)

  -- A key with a code from 58 on that is none of the special ones types nothing.
  past_table :
      (code : ℕ)
      → 58 ≤ code
      → view s
        ≡ (if char_of (view s) code == 0 then view s else enqueue (char_of (view s) code) (view s))
  past_table code h = sym (if_true _ _ _ (ap (λ c. c == 0) (no_char code h)))

  key_pressed-view : (code : ℕ) → code < 128 → view (key_pressed code s) ≡ press code (view s)
  unfolding key_pressed press contents count
  key_pressed-view code low = if_map view ((code == 0x2A) || (code == 0x36)) refl (
      if_map view (code == 0x3A) refl typed
      ∙ sym (
          if_false ((code == 0xAA) || (code == 0xB6)) (record (view s) { shift = false }) _
            (ground arith)))
    where
      typed : view (if ltb code (length scancode_table) then push_key code s else s) ≡ (
          if char_of (view s) code == 0 then view s else enqueue (char_of (view s) code) (view s))
      typed = elim (Bool-cases (ltb code (length scancode_table))) [
        | inl e ↦ ap view (if_true _ _ _ e) ∙ push_key-view code
        | inr e ↦ ap view (if_false _ _ _ e) ∙ past_table code (ground arith)
      ]

  key_released-view :
      (code : ℕ) → leb 128 code ≡ true → view (key_released (code - 128) s) ≡ press code (view s)
  unfolding key_released press contents count
  key_released-view code up =
      ap (λ b. view (if b then record s { shift_pressed = false } else s)) same
      ∙ if_map view ((code == 0xAA) || (code == 0xB6)) refl (
          past_table code (ground arith)
          ∙ sym (
              if_false (code == 0x3A) (record (view s) { caps = not s.caps_lock }) _
                (ground arith)))
      ∙ sym (
          if_false ((code == 0x2A) || (code == 0x36)) (record (view s) { shift = true }) _
            (ground arith))
    where
      same : ((code - 128 == 0x2A) || (code - 128 == 0x36)) ≡ ((code == 0xAA) || (code == 0xB6))
      same = ground arith

  -- From a ring with both indices in range, the handler does to what is shown what the key does that
  -- its scancode, a byte, names.
  pub keyboard_handler-press :
      (code : ℕ) → code < 256 → view (keyboard_handler code s) ≡ press code (view s)
  unfolding keyboard_handler
  keyboard_handler-press code byte =
      ap (λ b. view (if b then key_released (bit_and code 0x7F) s else key_pressed code s))
        (test_bit-released code byte)
      ∙ elim (Bool-cases (leb 128 code)) [
        | inl up ↦
            ap view (if_true _ _ _ up)
            ∙ ap (λ key. view (key_released key s)) (bit_and-released code byte up)
            ∙ key_released-view code up
        | inr down ↦ ap view (if_false _ _ _ down) ∙ key_pressed-view code (ground arith)
      ]

  pub keyboard_handler-IsRing : (code : ℕ) → IsRing (keyboard_handler code s)
  unfolding keyboard_handler key_released key_pressed push_key
  keyboard_handler-IsRing code =
      if_both IsRing (test_bit code 7)
        (if_both IsRing ((bit_and code 0x7F == 0x2A) || (bit_and code 0x7F == 0x36)) flags r)
        (if_both IsRing ((code == 0x2A) || (code == 0x36)) flags (
          if_both IsRing (code == 0x3A) flags (
            if_both IsRing (ltb code (length scancode_table))
              (if_both IsRing (char_of (view s) code == 0) r (buf_push-IsRing r _)) r)))
    where
      flags : {shift caps : Bool} → IsRing (record s { shift_pressed = shift; caps_lock = caps })
      flags = record { head = r.head; tail = r.tail }
