-- ===== src/Drivers/Keyboard/Ring.antt =====
-- The ring buffer of kernel/src/drivers/keyboard.c as a queue of at most 255 characters.
use ded_os.Base.{
  ℕ, zero, suc, ◌+◌, ◌-◌, ◌%◌, ◌≤◌, ◌<◌, ◌≡◌, refl, sym, ◌∙◌, ap, inl, inr, true, false, List, [],
  ◌∷◌, ◌++◌, arith, ◌==◌, if◌then◌else◌, if_false, Bool-cases, length,
}
use ded_os.Base.Memory.{update, update_self, update_ne}
use ded_os.Drivers.Keyboard.{Keyboard, buf_push, buf_pop}

pub record IsRing (s : Keyboard) : Type 0 where
  pub head : s.buf_head < 256
  pub tail : s.buf_tail < 256

-- `n` cells of the buffer from index `i` on, round the end.
unfoldable pub ring_read : (ℕ → ℕ) → ℕ → ℕ → List ℕ
ring_read m i zero = []
ring_read m i (suc n) = m i ∷ ring_read m ((i + 1) % 256) n

unfoldable pub count : Keyboard → ℕ
count s = (s.buf_head + 256 - s.buf_tail) % 256

-- The characters in the buffer, the oldest first.
unfoldable pub contents : Keyboard → List ℕ
contents s = ring_read s.keyboard_buffer s.buf_tail (count s)

length-ring_read : (m : ℕ → ℕ) (n i : ℕ) → length (ring_read m i n) ≡ n
unfolding ring_read
length-ring_read m zero i = refl
length-ring_read m (suc n) i = omega (arith, length-ring_read m n ((i + 1) % 256))

-- A write to a cell that is not read.
ring_read-update :
    (m : ℕ → ℕ) (a c n i : ℕ)
    → i < 256
    → a < 256
    → n ≤ (a + 256 - i) % 256
    → ring_read (update m a c) i n ≡ ring_read m i n
unfolding ring_read
ring_read-update m a c zero i hi ha h = refl
ring_read-update m a c (suc n) i hi ha h = rw (
  update_ne m a c i (λ e. omega arith),
  ring_read-update m a c n ((i + 1) % 256) (omega arith) ha (omega arith),
)

-- The last cell that is read.
ring_read-snoc :
    (m : ℕ → ℕ) (n i : ℕ)
    → i < 256
    → ring_read m i (suc n) ≡ ring_read m i n ++ (m ((i + n) % 256) ∷ [])
unfolding ring_read
ring_read-snoc m zero i hi = ap (λ j. m j ∷ []) (omega arith)
ring_read-snoc m (suc n) i hi =
    ap (λ xs. m i ∷ xs)
      (ring_read-snoc m n ((i + 1) % 256) (omega arith)
        ∙ ap (λ j. ring_read m ((i + 1) % 256) n ++ (m j ∷ [])) (omega arith))

pub length-contents : (s : Keyboard) → length (contents s) ≡ count s
unfolding contents
length-contents s = length-ring_read s.keyboard_buffer (count s) s.buf_tail

module _ {s : Keyboard} (r : IsRing s) where
  pub buf_push-IsRing : (c : ℕ) → IsRing (buf_push c s)
  unfolding buf_push
  buf_push-IsRing c = ground (arith, r)

  full_count : ((s.buf_head + 1) % 256 == s.buf_tail) ≡ (count s == 255)
  unfolding count
  full_count = ground (arith, r)

  pushed : ℕ → Keyboard
  pushed c = record s {
    keyboard_buffer = update s.keyboard_buffer s.buf_head c;
    buf_head = (s.buf_head + 1) % 256;
  }

  pushed-contents :
      (c : ℕ) → (count s == 255) ≡ false → contents (pushed c) ≡ contents s ++ (c ∷ [])
  unfolding contents pushed
  pushed-contents c room =
      let m = s.keyboard_buffer in
      ap (ring_read (update m s.buf_head c) s.buf_tail) one_more
      ∙ ring_read-snoc (update m s.buf_head c) (count s) s.buf_tail r.tail
      ∙ ap (λ xs. xs ++ (update m s.buf_head c ((s.buf_tail + count s) % 256) ∷ []))
          (ring_read-update m s.buf_head c (count s) s.buf_tail r.tail r.head
            (unfold count in omega arith))
      ∙ ap (λ d. contents s ++ (d ∷ []))
          (ap (update m s.buf_head c) at_head ∙ update_self m s.buf_head c)
    where
      at_head : (s.buf_tail + count s) % 256 ≡ s.buf_head
      at_head = unfold count in omega (arith, r.head, r.tail)

      one_more : count (pushed c) ≡ suc (count s)
      one_more = unfold count in ground (arith, r.head, r.tail, room)

  -- A character goes to the end of the queue, unless 255 are in it.
  pub buf_push-contents :
      (c : ℕ)
      → contents (buf_push c s)
        ≡ (if length (contents s) == 255 then contents s else contents s ++ (c ∷ []))
  unfolding buf_push pushed
  buf_push-contents c = elim (Bool-cases (count s == 255)) [
    | inl full ↦
        ap contents (rw (full_count, full))
        ∙ sym (
            ap (λ n. if n == 255 then contents s else contents s ++ (c ∷ [])) (length-contents s)
            ∙ ap (λ b. if b then contents s else contents s ++ (c ∷ [])) full)
    | inr room ↦
        ap contents (rw (full_count, room))
        ∙ pushed-contents c room
        ∙ sym (
            ap (λ n. if n == 255 then contents s else contents s ++ (c ∷ [])) (length-contents s)
            ∙ if_false _ _ _ room)
  ]

  pub buf_pop-IsRing : IsRing (buf_pop s).1
  unfolding buf_pop
  buf_pop-IsRing = record { head = r.head; tail = omega arith }

  -- The buffer is empty when the two indices are equal; otherwise the oldest character is taken.
  pub buf_pop-contents :
      (s.buf_head == s.buf_tail) ≡ false → contents s ≡ (buf_pop s).0 ∷ contents (buf_pop s).1
  unfolding buf_pop contents ring_read
  buf_pop-contents some_left = ap (ring_read s.keyboard_buffer s.buf_tail) one_less
    where
      one_less : count s ≡ suc (count (buf_pop s).1)
      one_less = unfold count in unfold buf_pop in ground (arith, r.head, r.tail, some_left)

  pub contents-empty : (s.buf_head == s.buf_tail) ≡ true → contents s ≡ []
  unfolding contents ring_read
  contents-empty e = ap (ring_read s.keyboard_buffer s.buf_tail) none_left
    where
      none_left : count s ≡ 0
      none_left = unfold count in ground (arith, r.head, r.tail, e)
