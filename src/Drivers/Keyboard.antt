-- ===== src/Drivers/Keyboard.antt =====
-- kernel/src/drivers/keyboard.c. The port that the handler reads is its argument, the scancode; the
-- flags are Booleans. `keyboard_getchar` waits in a loop for interrupts: the scancodes that come
-- while it waits are its argument, and it is `none` when they run out before a character is there.
pub mod Ring
pub mod Keys
pub mod Model
pub mod Typing
mod Tests
use Prim.Native.Nat.{bit_and}
use ded_os.Base.{
  ℕ, ◌+◌, ◌%◌, Bool, true, false, not, ◌||◌, Option, none, some, List, [], ◌∷◌, ltb, ◌==◌,
  if◌then◌else◌, get_or, length,
}
use ded_os.Base.Memory.{update}
use ded_os.Base.BitOps.{test_bit}

abbrev pub keyboard_buf_size : ℕ
keyboard_buf_size = 256

pub record Keyboard : Type 0 where
  pub keyboard_buffer : ℕ → ℕ
  pub buf_head : ℕ
  pub buf_tail : ℕ
  pub shift_pressed : Bool
  pub caps_lock : Bool

abbrev pub scancode_table : List ℕ
scancode_table =
    0 ∷ 0 ∷ 49 ∷ 50 ∷ 51 ∷ 52 ∷ 53 ∷ 54 ∷ 55 ∷ 56 ∷ 57 ∷ 48 ∷ 45 ∷ 61 ∷ 8 ∷ 9 ∷ 113 ∷ 119 ∷ 101
    ∷ 114 ∷ 116 ∷ 121 ∷ 117 ∷ 105 ∷ 111 ∷ 112 ∷ 91 ∷ 93 ∷ 10 ∷ 0 ∷ 97 ∷ 115 ∷ 100 ∷ 102 ∷ 103 ∷ 104
    ∷ 106 ∷ 107 ∷ 108 ∷ 59 ∷ 39 ∷ 96 ∷ 0 ∷ 92 ∷ 122 ∷ 120 ∷ 99 ∷ 118 ∷ 98 ∷ 110 ∷ 109 ∷ 44 ∷ 46 ∷ 47
    ∷ 0 ∷ 42 ∷ 0 ∷ 32 ∷ []

abbrev pub scancode_table_shift : List ℕ
scancode_table_shift =
    0 ∷ 0 ∷ 33 ∷ 64 ∷ 35 ∷ 36 ∷ 37 ∷ 94 ∷ 38 ∷ 42 ∷ 40 ∷ 41 ∷ 95 ∷ 43 ∷ 8 ∷ 9 ∷ 81 ∷ 87 ∷ 69 ∷ 82
    ∷ 84 ∷ 89 ∷ 85 ∷ 73 ∷ 79 ∷ 80 ∷ 123 ∷ 125 ∷ 10 ∷ 0 ∷ 65 ∷ 83 ∷ 68 ∷ 70 ∷ 71 ∷ 72 ∷ 74 ∷ 75 ∷ 76
    ∷ 58 ∷ 34 ∷ 126 ∷ 0 ∷ 124 ∷ 90 ∷ 88 ∷ 67 ∷ 86 ∷ 66 ∷ 78 ∷ 77 ∷ 60 ∷ 62 ∷ 63 ∷ 0 ∷ 42 ∷ 0 ∷ 32
    ∷ []

unfoldable pub buf_push : ℕ → Keyboard → Keyboard
buf_push c s =
    let next = (s.buf_head + 1) % keyboard_buf_size in
    if next == s.buf_tail
    then s
    else record s { keyboard_buffer = update s.keyboard_buffer s.buf_head c; buf_head = next }

-- `shift_pressed ^ caps_lock`.
abbrev pub use_upper : Keyboard → Bool
use_upper s = if s.shift_pressed then not s.caps_lock else s.caps_lock

-- A key of the tables, whose entry 0 stands for no character.
unfoldable pub push_key : ℕ → Keyboard → Keyboard
push_key scancode s =
    let c = get_or (if use_upper s then scancode_table_shift else scancode_table) scancode 0 in
    if c == 0 then s else buf_push c s

unfoldable pub key_released : ℕ → Keyboard → Keyboard
key_released released s =
    if (released == 0x2A) || (released == 0x36) then record s { shift_pressed = false } else s

unfoldable pub key_pressed : ℕ → Keyboard → Keyboard
key_pressed scancode s =
    if (scancode == 0x2A) || (scancode == 0x36)
    then record s { shift_pressed = true }
    else if scancode == 0x3A
    then record s { caps_lock = not s.caps_lock }
    else if ltb scancode (length scancode_table)
    then push_key scancode s
    else s

unfoldable pub keyboard_handler : ℕ → Keyboard → Keyboard
keyboard_handler scancode s =
    if test_bit scancode 7 then key_released (bit_and scancode 0x7F) s else key_pressed scancode s

-- The character at the tail, which is taken out.
unfoldable pub buf_pop : Keyboard → ℕ × Keyboard
buf_pop s =
    (s.keyboard_buffer s.buf_tail, record s { buf_tail = (s.buf_tail + 1) % keyboard_buf_size })

unfoldable pub keyboard_getchar : List ℕ → Keyboard → Option (ℕ × Keyboard)
keyboard_getchar [] s = if s.buf_head == s.buf_tail then none else some (buf_pop s)
keyboard_getchar (code ∷ codes) s =
    let waited = keyboard_getchar codes (keyboard_handler code s) in
    if s.buf_head == s.buf_tail then waited else some (buf_pop s)
