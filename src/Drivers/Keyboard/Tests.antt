-- ===== src/Drivers/Keyboard/Tests.antt =====
-- Keys on an empty keyboard and on one that holds a character, round the end of the ring.
use ded_os.Base.{ℕ, ◌≡◌, refl, true, false, List, [], ◌∷◌, ◌++◌, arith}
use ded_os.Drivers.Keyboard.{Keyboard, keyboard_getchar}
use ded_os.Drivers.Keyboard.Ring.{IsRing, contents, count, ring_read}
use ded_os.Drivers.Keyboard.Model.{view}
use ded_os.Drivers.Keyboard.Typing.{
  AreBytes, next_char, shown, keyboard_getchar-next_char, handle_all, text, handle_all-types,
}

-- 'x' at index 255 is the only character.
abbrev keys : Keyboard
keys = record {
  keyboard_buffer = λ i. 120;
  buf_head = 0;
  buf_tail = 255;
  shift_pressed = false;
  caps_lock = true;
}

keys-IsRing : IsRing keys
keys-IsRing = record { head = omega arith; tail = omega arith }

-- Shift down, a, shift up, a.
abbrev codes : List ℕ
codes = 0x2A ∷ 0x1E ∷ 0xAA ∷ 0x1E ∷ []

codes-AreBytes : AreBytes codes
codes-AreBytes = (omega arith, (omega arith, (omega arith, (omega arith, tt))))

text_of_codes : text codes false true ≡ 97 ∷ 65 ∷ []
unfolding text
text_of_codes = refl

keyboard_getchar-next_char_example :
    shown (keyboard_getchar codes keys) ≡ next_char codes (view keys)
keyboard_getchar-next_char_example = keyboard_getchar-next_char codes keys-IsRing codes-AreBytes

handle_all-types_example : contents (handle_all codes keys) ≡ contents keys ++ text codes false true
handle_all-types_example =
    handle_all-types codes keys-IsRing codes-AreBytes
      (unfold contents in unfold ring_read in unfold count in omega arith)
