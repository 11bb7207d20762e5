-- ===== src/Esp32/Life.antt =====
-- The life of the link: everything that happens to it, and what every handler keeps
-- (packages/esp32-link/src/doorboard_esp32_link/esp32.py).
pub mod Happenings
pub mod Sound
pub mod Reports
pub mod Waiting
pub mod Counts
pub mod Press
use doorboard.Prelude.{
  ℕ, suc, String, Bool, true, false, none, some, Bool-cases, inl, inr, List, [], ◌∷◌, ◌++◌, length,
  Option, ltb, ◌==◌, if◌then◌else◌,
}
use doorboard.Esp32.Wire.{
  MessageType, hello, profile_update, profile_clear, effect_play, button_event, knock_event,
  contact_event, heartbeat, ack, other, WireMessage, ProtocolError, Result, ok, err, no_fields,
  unsupported_version, ack_missing, invalid_payload, proto_v, ack_required, decode_wire_message,
  max_frame_bytes, oversize_frame, read_failed,
}
use doorboard.Esp32.Dedupe.{Dedupe}
use doorboard.Esp32.Link.{
  EventType, controller_health, Event, Reason, by_hello, by_heartbeat, read_failure,
  byte_transport_closed, heartbeat_timeout, Setup, Link, put_event, put_frame, set_connected,
  next_seq, numbered, write_message, receive_error,
}
use doorboard.Esp32.Link.Inbound.{
  resolved, ack_for, handle_ack, read_inbound, Inbound, greeting, report, beat, take_in, finish,
  acknowledge, dedupe_step, handle_inbound, handle_typed, handle_message, handle_line,
}
use doorboard.Esp32.Frames.{
  Receiver, rstrip, with_link, handle_full, end_line, oversize, append, receive_byte, unless_raised,
  receive_bytes, caught, read_turn,
}
use doorboard.Esp32.Send.{Arrivals, arrive}

-- A frame went out.
abbrev pub put : WireMessage → List Bool → Link → Link
put m ws l = record l { writes = ws; written = l.written ++ m ∷ [] }

-- A predicate that each of the steps keeps of which the handlers consist.
pub record Closed (s : Setup) (P : Link → Type 0) : Type 0 where
  pub on_error : (e : ProtocolError) (l : Link) → P l → P (receive_error e l)
  pub on_ack :
      (m : WireMessage) (a : ℕ) (l : Link)
      → P l
      → P (record l { pending_acks = resolved m a l.pending_acks })
  pub on_dedupe : (d : Dedupe) (l : Link) → P l → P (record l { dedupe = d })
  pub on_seq : (l : Link) → P l → P (next_seq l)
  pub on_lost_frame : (ws : List Bool) (l : Link) → P l → P (record l { writes = ws })
  pub on_ack_frame :
      (n : Option ℕ) (seq : Link) (ws : List Bool) (l : Link)
      → P l
      → P (put (numbered ack n no_fields seq) ws l)
  pub on_repeat : (l : Link) → P l → P (record l { duplicate_rx = suc l.duplicate_rx })
  pub on_greeting : (now : ℕ) (b fw : String) (l : Link) → P l → P (take_in s now (greeting b fw) l)
  pub on_beat : (now : ℕ) (l : Link) → P l → P (beat s now controller_health l)
  pub on_event : (e : Event) (l : Link) → P l → P (put_event s e l)
  pub on_loss :
      (now : ℕ) (reason : Reason) (l : Link) → P l → P (set_connected s now false reason l)
  pub on_failure : (l : Link) → P l → P (record l { protocol_error = some read_failed })

module _ (s : Setup) (P : Link → Type 0) (c : Closed s P) where
  put_frame_keeps :
      (m : WireMessage)
      → ((ws : List Bool) (l : Link) → P l → P (put m ws l))
      → (ws : List Bool) (l : Link) → P l
      → P (put_frame m ws l).0
  put_frame_keeps m f [] l h = f l.writes l h
  put_frame_keeps m f (true ∷ ws) l h = f ws l h
  put_frame_keeps m f (false ∷ ws) l h = c.on_lost_frame ws l h

  pub write_message_keeps :
      (m : WireMessage)
      → ((ws : List Bool) (l : Link) → P l → P (put m ws l))
      → (l : Link) → P l
      → P (write_message s m l).0
  unfolding write_message
  write_message_keeps m f l h = elim (Bool-cases (ltb max_frame_bytes (s.frame_length m))) [
    | inl e ↦ rw e h
    | inr e ↦ rw e (put_frame_keeps m f l.writes l h)
  ]

  acknowledge_keeps : (m : WireMessage) (l : Link) → P l → P (acknowledge s m l).0
  acknowledge_keeps m l h = elim (Bool-cases (ack_required m.message_type)) [
    | inl e ↦ rw e (
        write_message_keeps (numbered ack (some m.seq) no_fields l) (c.on_ack_frame (some m.seq) l)
          (next_seq l) (c.on_seq l h))
    | inr e ↦ rw e h
  ]

  beat_keeps : (now : ℕ) (t : EventType) (l : Link) → P l → P (beat s now t l)
  beat_keeps now controller_health l h = c.on_beat now l h
  beat_keeps now _ l h = h

  take_in_keeps : (now : ℕ) (i : Inbound) (l : Link) → P l → P (take_in s now i l)
  take_in_keeps now (greeting b fw) l h = c.on_greeting now b fw l h
  take_in_keeps now (report e) l h =
      c.on_event e (beat s now e.event_type l) (beat_keeps now e.event_type l h)

  finish_keeps :
      (now : ℕ) (i : Inbound) (repeat : Bool) (o : Link × Bool)
      → P o.0
      → P (finish s now i repeat o).0
  finish_keeps now i repeat (l, true) h = h
  finish_keeps now i true (l, false) h = c.on_repeat l h
  finish_keeps now i false (l, false) h = take_in_keeps now i l h

  handle_inbound_keeps :
      (now : ℕ) (m : WireMessage) (i : Result Inbound) (l : Link)
      → P l
      → P (handle_inbound s now m i l).0
  handle_inbound_keeps now m (err e) l h = c.on_error (invalid_payload m.message_type e) l h
  handle_inbound_keeps now m (ok i) l h =
      let d = dedupe_step s m i l in
      finish_keeps now i d.1 (acknowledge s m (record l { dedupe = d.0 }))
        (acknowledge_keeps m (record l { dedupe = d.0 }) (c.on_dedupe d.0 l h))

  ack_for_keeps : (m : WireMessage) (a : Option ℕ) (l : Link) → P l → P (ack_for m a l)
  ack_for_keeps m none l h = c.on_error ack_missing l h
  ack_for_keeps m (some a) l h = c.on_ack m a l h

  handle_typed_keeps :
      (now : ℕ) (m : WireMessage) (t : MessageType) (l : Link)
      → P l
      → P (handle_typed s now m t l).0
  unfolding handle_ack
  handle_typed_keeps now m ack l h = ack_for_keeps m m.acked l h
  handle_typed_keeps now m t l h = handle_inbound_keeps now m (read_inbound s now l t m.payload) l h

  handle_message_keeps :
      (now : ℕ) (m : Result WireMessage) (l : Link) → P l → P (handle_message s now m l).0
  handle_message_keeps now (err e) l h = c.on_error e l h
  handle_message_keeps now (ok m) l h = elim (Bool-cases (m.v == proto_v)) [
    | inl e ↦ rw e (handle_typed_keeps now m m.message_type l h)
    | inr e ↦ rw e (c.on_error (unsupported_version m.v) l h)
  ]

  pub handle_line_keeps :
      (now : ℕ) (line : List ℕ) (l : Link) → P l → P (handle_line s now line l).0
  unfolding handle_line
  handle_line_keeps now line l h = handle_message_keeps now (decode_wire_message s.loads line) l h

  handle_full_keeps :
      (now : ℕ) (line : List ℕ) (r : Receiver) → P r.link → P (handle_full s now line r).0.link
  handle_full_keeps now [] r h = h
  handle_full_keeps now (b ∷ bs) r h = handle_line_keeps now (b ∷ bs) r.link h

  end_line_keeps : (now : ℕ) (d : Bool) (r : Receiver) → P r.link → P (end_line s now d r).0.link
  end_line_keeps now true r h = h
  end_line_keeps now false r h =
      handle_full_keeps now (rstrip r.line_buffer) (record r { line_buffer = [] }) h

  append_keeps : (b : ℕ) (d : Bool) (r : Receiver) → P r.link → P (append b d r).link
  append_keeps b true r h = h
  append_keeps b false r h = elim (Bool-cases (ltb max_frame_bytes (suc (length r.line_buffer)))) [
    | inl e ↦ rw e (c.on_error oversize_frame r.link h)
    | inr e ↦ rw e h
  ]

  receive_byte_keeps : (now b : ℕ) (r : Receiver) → P r.link → P (receive_byte s now b r).0.link
  unfolding receive_byte
  receive_byte_keeps now b r h = elim (Bool-cases (b == 10)) [
    | inl e ↦ rw e (end_line_keeps now r.discarding_oversize_line r h)
    | inr e ↦ rw e (append_keeps b r.discarding_oversize_line r h)
  ]

  next_keeps :
      (o : Receiver × Bool) (f : Receiver → Receiver × Bool)
      → ((q : Receiver) → P q.link → P (f q).0.link)
      → P o.0.link
      → P (unless_raised o f).0.link
  next_keeps (r, true) f k h = h
  next_keeps (r, false) f k h = k r h

  receive_bytes_keeps :
      (now : ℕ) (bs : List ℕ) (r : Receiver) → P r.link → P (receive_bytes s now bs r).0.link
  unfolding receive_bytes
  receive_bytes_keeps now [] r h = h
  receive_bytes_keeps now (b ∷ bs) r h =
      next_keeps (receive_byte s now b r) (receive_bytes s now bs) (receive_bytes_keeps now bs)
        (receive_byte_keeps now b r h)

  caught_keeps : (now : ℕ) (o : Receiver × Bool) → P o.0.link → P (caught s now o).link
  caught_keeps now (r, false) h = h
  caught_keeps now (r, true) h =
      c.on_loss now read_failure (record r.link { protocol_error = some read_failed })
        (c.on_failure r.link h)

  pub read_turn_keeps :
      (now : ℕ) (bs : List ℕ) (r : Receiver) → P r.link → P (read_turn s now bs r).link
  unfolding read_turn
  read_turn_keeps now [] r h = c.on_loss now byte_transport_closed r.link h
  read_turn_keeps now (b ∷ bs) r h =
      caught_keeps now (receive_bytes s now (b ∷ bs) r) (receive_bytes_keeps now (b ∷ bs) r h)

  pub arrive_keeps : (cs : Arrivals) (r : Receiver) → P r.link → P (arrive s cs r).link
  unfolding arrive
  arrive_keeps [] r h = h
  arrive_keeps ((now, bs) ∷ cs) r h =
      arrive_keeps cs (read_turn s now bs r) (read_turn_keeps now bs r h)
