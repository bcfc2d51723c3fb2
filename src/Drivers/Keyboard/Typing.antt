-- ===== src/Drivers/Keyboard/Typing.antt =====
-- What is typed is read, in order: runs of `keyboard_handler` and `keyboard_getchar` in
-- kernel/src/drivers/keyboard.c against the model.
use mathlib.Core.List.{append-nil, append_assoc}
use ded_os.Base.{
  ℕ, ◌+◌, ◌≤◌, ◌<◌, ◌≡◌, refl, sym, ◌∙◌, ap, inl, inr, Bool, true, false, not, ◌||◌, Option, none,
  some, List, [], ◌∷◌, ◌++◌, arith, ◌==◌, if◌then◌else◌, if_true, if_false, Bool-cases, length,
  length-append, All,
}
use ded_os.Drivers.Keyboard.{Keyboard, buf_pop, keyboard_handler, keyboard_getchar}
use ded_os.Drivers.Keyboard.Ring.{IsRing, contents, buf_pop-contents, contents-empty}
use ded_os.Drivers.Keyboard.Model.{
  Typing, view, char_of, enqueue, press, keyboard_handler-press, keyboard_handler-IsRing,
}

abbrev pub AreBytes : List ℕ → Type 0
AreBytes codes = All (λ code. code < 256) codes

-- The next character, with the scancodes that come while there is none.
unfoldable pub next_char : List ℕ → Typing → Option (ℕ × Typing)
next_char [] v = elim v.queue [ [] ↦ none | c ∷ rest ↦ some (c, record v { queue = rest }) ]
next_char (code ∷ codes) v = elim v.queue [
  | [] ↦ next_char codes (press code v)
  | c ∷ rest ↦ some (c, record v { queue = rest })
]

abbrev pub shown : Option (ℕ × Keyboard) → Option (ℕ × Typing)
shown none = none
shown (some (c, s)) = some (c, view s)

-- With a character in the buffer it is taken at once.
module _ {s : Keyboard} (r : IsRing s) (some_left : (s.buf_head == s.buf_tail) ≡ false) where
  getchar-ready : (codes : List ℕ) → keyboard_getchar codes s ≡ some (buf_pop s)
  unfolding keyboard_getchar
  getchar-ready [] = if_false _ _ _ some_left
  getchar-ready (code ∷ codes) = if_false _ _ _ some_left

  next_char-ready : (codes : List ℕ) → next_char codes (view s) ≡ shown (some (buf_pop s))
  unfolding next_char buf_pop
  next_char-ready [] =
      ap (λ q. next_char [] (record (view s) { queue = q })) (buf_pop-contents r some_left)
  next_char-ready (code ∷ codes) =
      ap (λ q. next_char (code ∷ codes) (record (view s) { queue = q }))
        (buf_pop-contents r some_left)

nothing_shown :
    {s : Keyboard}
    → IsRing s
    → (s.buf_head == s.buf_tail) ≡ true
    → view s ≡ record (view s) { queue = [] }
nothing_shown {s} r empty = ap (λ q. record (view s) { queue = q }) (contents-empty r empty)

-- From a ring with both indices in range, `keyboard_getchar` gives the character that the model
-- gives, and leaves what the model leaves, whatever scancodes come while it waits: the oldest
-- character of the buffer, or the first that is typed if there is none.
pub keyboard_getchar-next_char :
    (codes : List ℕ) {s : Keyboard}
    → IsRing s
    → AreBytes codes
    → shown (keyboard_getchar codes s) ≡ next_char codes (view s)
unfolding keyboard_getchar next_char
keyboard_getchar-next_char [] {s} r bytes = elim (Bool-cases (s.buf_head == s.buf_tail)) [
  | inr some_left ↦ ap shown (getchar-ready r some_left []) ∙ sym (next_char-ready r some_left [])
  | inl empty ↦ ap shown (if_true _ _ _ empty) ∙ sym (ap (next_char []) (nothing_shown r empty))
]
keyboard_getchar-next_char (code ∷ codes) {s} r bytes =
    elim (Bool-cases (s.buf_head == s.buf_tail)) [
      | inr some_left ↦
          ap shown (getchar-ready r some_left (code ∷ codes))
          ∙ sym (next_char-ready r some_left (code ∷ codes))
      | inl empty ↦
          let nothing = nothing_shown r empty in
          ap shown (if_true _ _ _ empty)
          ∙ keyboard_getchar-next_char codes (keyboard_handler-IsRing r code) bytes.1
          ∙ ap (next_char codes) (keyboard_handler-press r code bytes.0 ∙ ap (press code) nothing)
          ∙ sym (ap (next_char (code ∷ codes)) nothing)
    ]

-- `keyboard_handler` for one scancode after the other.
unfoldable pub handle_all : List ℕ → Keyboard → Keyboard
handle_all [] s = s
handle_all (code ∷ codes) s = handle_all codes (keyboard_handler code s)

-- The flags after a key, and what it types; 0 is nothing.
abbrev pub shift_after : ℕ → Bool → Bool
shift_after code shift =
    if (code == 0x2A) || (code == 0x36)
    then true
    else if (code == 0xAA) || (code == 0xB6)
    then false
    else shift

abbrev pub caps_after : ℕ → Bool → Bool
caps_after code caps = if code == 0x3A then not caps else caps

abbrev pub is_modifier : ℕ → Bool
is_modifier code =
    ((code == 0x2A) || (code == 0x36)) || (((code == 0xAA) || (code == 0xB6)) || (code == 0x3A))

-- The text that scancodes type, from the flags at the start.
unfoldable pub text : List ℕ → Bool → Bool → List ℕ
text [] shift caps = []
text (code ∷ codes) shift caps =
    let rest = text codes (shift_after code shift) (caps_after code caps) in
    let c = char_of (record { queue = []; shift = shift; caps = caps }) code in
    if is_modifier code || (c == 0) then rest else c ∷ rest

press_flags :
    (code : ℕ) (v : Typing)
    → ((press code v).shift ≡ shift_after code v.shift)
      × ((press code v).caps ≡ caps_after code v.caps)
unfolding press enqueue
press_flags code v = ground arith

press_queue :
    (code : ℕ) (v : Typing)
    → length v.queue < 255
    → (press code v).queue ≡ (
        if is_modifier code || (char_of v code == 0)
        then v.queue
        else v.queue ++ (char_of v code ∷ []))
unfolding press enqueue
press_queue code v room = ground arith

-- Either a character is added or none is, and the rest of the text follows.
append_text :
    (b : Bool) (c : ℕ) (q rest : List ℕ)
    → (if b then q else q ++ (c ∷ [])) ++ rest ≡ q ++ (if b then rest else c ∷ rest)
append_text true c q rest = refl
append_text false c q rest = append_assoc q (c ∷ []) rest

length-one_more :
    (b : Bool) (c : ℕ) (q : List ℕ) → length (if b then q else q ++ (c ∷ [])) ≤ length q + 1
length-one_more true c q = omega arith
length-one_more false c q = omega (arith, length-append q (c ∷ []))

-- From a ring with both indices in range, and with room for them, the scancodes, which are bytes,
-- add the text that they type, under the shift and caps lock keys, to the end of the buffer.
pub handle_all-types :
    (codes : List ℕ) {s : Keyboard}
    → IsRing s
    → AreBytes codes
    → length (contents s) + length codes ≤ 255
    → contents (handle_all codes s) ≡ contents s ++ text codes s.shift_pressed s.caps_lock
unfolding handle_all text
handle_all-types [] {s} r bytes room = sym (append-nil (contents s))
handle_all-types (code ∷ codes) {s} r bytes room =
    handle_all-types codes (keyboard_handler-IsRing r code) bytes.1
      (omega (arith, ap length queue, length-one_more b (char_of (view s) code) (contents s)))
    ∙ ap (λ (v : Typing). v.queue ++ text codes v.shift v.caps) pressed
    ∙ ap (λ q. q ++ text codes (press code (view s)).shift (press code (view s)).caps)
        (press_queue code (view s) (omega arith))
    ∙ ap
        (λ f.
          (if b then contents s else contents s ++ (char_of (view s) code ∷ []))
          ++ text codes f (press code (view s)).caps)
        (press_flags code (view s)).0
    ∙ ap
        (λ f.
          (if b then contents s else contents s ++ (char_of (view s) code ∷ []))
          ++ text codes (shift_after code s.shift_pressed) f)
        (press_flags code (view s)).1
    ∙ append_text b (char_of (view s) code) (contents s) _
  where
    b : Bool
    b = is_modifier code || (char_of (view s) code == 0)

    pressed : view (keyboard_handler code s) ≡ press code (view s)
    pressed = keyboard_handler-press r code bytes.0

    queue :
        contents (keyboard_handler code s)
        ≡ (if b then contents s else contents s ++ (char_of (view s) code ∷ []))
    queue = ap (λ (v : Typing). v.queue) pressed ∙ press_queue code (view s) (omega arith)
