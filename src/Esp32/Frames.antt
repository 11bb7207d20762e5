-- ===== src/Esp32/Frames.antt =====
-- From the bytes to the lines (`_receive_bytes` and the body of `_read_loop` of
-- packages/esp32-link/src/doorboard_esp32_link/esp32.py).
pub mod Lines
use doorboard.Prelude.{
  ℕ, suc, Bool, true, false, none, some, List, [], ◌∷◌, ◌++◌, length, ltb, ◌==◌, if◌then◌else◌,
}
use doorboard.Esp32.Wire.{max_frame_bytes, oversize_frame, read_failed}
use doorboard.Esp32.Link.{
  byte_transport_closed, read_failure, Setup, Link, set_connected, receive_error,
}
use doorboard.Esp32.Link.Inbound.{handle_line}

pub record Receiver : Type 0 where
  pub line_buffer : List ℕ
  pub discarding_oversize_line : Bool
  pub link : Link

abbrev pub kept : ℕ → List ℕ → List ℕ
kept b [] = if b == 13 then [] else b ∷ []
kept b (c ∷ cs) = b ∷ c ∷ cs

-- `rstrip(b"\r")`
abbrev pub rstrip : List ℕ → List ℕ
rstrip [] = []
rstrip (b ∷ bs) = kept b (rstrip bs)

abbrev pub with_link : Receiver → Link × Bool → Receiver × Bool
with_link r (l, raised) = (record r { link = l }, raised)

-- `if line: await self._handle_line(line)`
abbrev pub handle_full : Setup → ℕ → List ℕ → Receiver → Receiver × Bool
handle_full s now [] r = (r, false)
handle_full s now (b ∷ bs) r = with_link r (handle_line s now (b ∷ bs) r.link)

abbrev pub end_line : Setup → ℕ → Bool → Receiver → Receiver × Bool
end_line s now true r = (record r { line_buffer = []; discarding_oversize_line = false }, false)
end_line s now false r = handle_full s now (rstrip r.line_buffer) (record r { line_buffer = [] })

abbrev pub oversize : Receiver → Receiver
oversize r = record r {
  line_buffer = [];
  discarding_oversize_line = true;
  link = receive_error oversize_frame r.link;
}

abbrev pub append : ℕ → Bool → Receiver → Receiver
append b true r = r
append b false r =
    if ltb max_frame_bytes (suc (length r.line_buffer))
    then oversize r
    else record r { line_buffer = r.line_buffer ++ b ∷ [] }

unfoldable pub receive_byte : Setup → ℕ → ℕ → Receiver → Receiver × Bool
receive_byte s now b r =
    if b == 10
    then end_line s now r.discarding_oversize_line r
    else (append b r.discarding_oversize_line r, false)

-- An exception leaves the loop over the bytes.
abbrev pub unless_raised : Receiver × Bool → (Receiver → Receiver × Bool) → Receiver × Bool
unless_raised (r, true) next = (r, true)
unless_raised (r, false) next = next r

unfoldable pub receive_bytes : Setup → ℕ → List ℕ → Receiver → Receiver × Bool
receive_bytes s now [] r = (r, false)
receive_bytes s now (b ∷ bs) r =
    unless_raised (receive_byte s now b r) (λ q. receive_bytes s now bs q)

abbrev pub on_link : (Link → Link) → Receiver → Receiver
on_link f r = record r { link = f r.link }

abbrev pub caught : Setup → ℕ → Receiver × Bool → Receiver
caught s now (r, false) = r
caught s now (r, true) =
    on_link
      (λ l. set_connected s now false read_failure (record l { protocol_error = some read_failed }))
      r

-- One turn of the loop: what the transport read, where `[]` is its end.
unfoldable pub read_turn : Setup → ℕ → List ℕ → Receiver → Receiver
read_turn s now [] r = on_link (set_connected s now false byte_transport_closed) r
read_turn s now (b ∷ bs) r = caught s now (receive_bytes s now (b ∷ bs) r)
