-- ===== src/Esp32/Frames/Lines.antt =====
-- How a stream of bytes is cut into lines (`_receive_bytes` of
-- packages/esp32-link/src/doorboard_esp32_link/esp32.py).
use doorboard.Prelude.{
  ℕ, suc, ◌+◌, ◌≤◌, ◌<◌, ◌≡◌, refl, ap, ◌∙◌, Bool, true, false, inl, inr, Bool-cases, List, [], ◌∷◌,
  ◌++◌, length, length-append, ltb, ltb→lt, ◌==◌, not_lt→le, arith, if◌then◌else◌,
}
use doorboard.Esp32.Wire.{max_frame_bytes, oversize_frame}
use doorboard.Esp32.Link.{Setup, Link, receive_error}
use doorboard.Esp32.Link.Inbound.{handle_line}
use doorboard.Esp32.Frames.{Receiver, rstrip, receive_byte, unless_raised, receive_bytes}

-- No line feed among the bytes.
abbrev pub NoLineFeed : List ℕ → Type 0
NoLineFeed [] = Unit
NoLineFeed (b ∷ bs) = ((b == 10) ≡ false) × NoLineFeed bs

abbrev pub at_start : Link → Receiver
at_start l = record { line_buffer = []; discarding_oversize_line = false; link = l }

abbrev pub held : List ℕ → Link → Receiver
held buf l = record { line_buffer = buf; discarding_oversize_line = false; link = l }

abbrev pub skipping : Link → Receiver
skipping l = record { line_buffer = []; discarding_oversize_line = true; link = l }

-- A line as a whole: one that is too long counts an error, one that is empty counts nothing.
abbrev pub handle_full_line : Setup → ℕ → List ℕ → Link → Link × Bool
handle_full_line s now [] l = (l, false)
handle_full_line s now (b ∷ bs) l = handle_line s now (b ∷ bs) l

abbrev pub line_step : Setup → ℕ → List ℕ → Link → Link × Bool
line_step s now line l =
    if ltb max_frame_bytes (length line)
    then (receive_error oversize_frame l, false)
    else handle_full_line s now (rstrip line) l

abbrev pub and_lines : Link × Bool → (Link → Link × Bool) → Link × Bool
and_lines (l, true) next = (l, true)
and_lines (l, false) next = next l

abbrev pub handle_lines : Setup → ℕ → List (List ℕ) → Link → Link × Bool
handle_lines s now [] l = (l, false)
handle_lines s now (x ∷ xs) l = and_lines (line_step s now x l) (λ m. handle_lines s now xs m)

-- The lines on the wire, each with its line feed.
abbrev pub stream : List (List ℕ) → List ℕ
stream [] = []
stream (x ∷ xs) = x ++ 10 ∷ stream xs

abbrev pub joined : List (List ℕ) → List ℕ
joined [] = []
joined (c ∷ cs) = c ++ joined cs

abbrev pub receive_chunks : Setup → ℕ → List (List ℕ) → Receiver → Receiver × Bool
receive_chunks s now [] r = (r, false)
receive_chunks s now (c ∷ cs) r =
    unless_raised (receive_bytes s now c r) (λ q. receive_chunks s now cs q)

abbrev pub between_lines : Link × Bool → Receiver × Bool
between_lines (l, raised) = (at_start l, raised)

module _ (s : Setup) (now : ℕ) where
  appended :
      (b : ℕ) (buf : List ℕ) (l : Link)
      → (b == 10) ≡ false
      → length buf < max_frame_bytes
      → receive_byte s now b (held buf l) ≡ (held (buf ++ b ∷ []) l, false)
  unfolding receive_byte
  appended b buf l h short =
      let fits : ltb max_frame_bytes (suc (length buf)) ≡ false = ground (arith, short) in
      rw (h, fits) refl

  overflows :
      (b : ℕ) (buf : List ℕ) (l : Link)
      → (b == 10) ≡ false
      → length buf ≡ max_frame_bytes
      → receive_byte s now b (held buf l) ≡ (skipping (receive_error oversize_frame l), false)
  unfolding receive_byte
  overflows b buf l h full =
      let long : ltb max_frame_bytes (suc (length buf)) ≡ true = ground (arith, full) in
      rw (h, long) refl

  skip :
      (xs ys : List ℕ) (l : Link)
      → NoLineFeed xs
      → receive_bytes s now (xs ++ ys) (skipping l) ≡ receive_bytes s now ys (skipping l)
  unfolding receive_bytes receive_byte
  skip [] ys l h = refl
  skip (b ∷ bs) ys l h = rw h.0 (skip bs ys l h.1)

  overflow :
      (xs ys buf : List ℕ) (l : Link)
      → NoLineFeed xs
      → length buf ≤ max_frame_bytes
      → max_frame_bytes < length buf + length xs
      → receive_bytes s now (xs ++ ys) (held buf l)
        ≡ receive_bytes s now ys (skipping (receive_error oversize_frame l))
  unfolding receive_bytes
  overflow [] ys buf l h le lt = absurd (omega (arith, le, lt))
  overflow (b ∷ bs) ys buf l h le lt = elim (Bool-cases (ltb (length buf) max_frame_bytes)) [
    | inl e ↦
        ap (λ o. unless_raised o (receive_bytes s now (bs ++ ys)))
          (appended b buf l h.0 (ltb→lt (length buf) max_frame_bytes e))
        ∙ overflow bs ys (buf ++ b ∷ []) l h.1
            (omega (arith, ltb→lt (length buf) max_frame_bytes e, length-append buf (b ∷ [])))
            (omega (arith, lt, length-append buf (b ∷ [])))
    | inr e ↦
        ap (λ o. unless_raised o (receive_bytes s now (bs ++ ys)))
          (overflows b buf l h.0 (omega (arith, le, not_lt→le (length buf) max_frame_bytes e)))
        ∙ skip bs ys (receive_error oversize_frame l) h.1
  ]
