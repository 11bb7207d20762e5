-- ===== src/Esp32/Link.antt =====
-- The state of the link and what it does with a line that arrived (`Esp32ProtocolTransport` of
-- packages/esp32-link/src/doorboard_esp32_link/esp32.py). A handler returns the new state and whether
-- it raised. `writes` are the outcomes of the coming writes, where a write after the last succeeds;
-- `written` are the frames that went out.
pub mod Health
pub mod Inbound
use doorboard.Prelude.{
  ℕ, suc, ◌+◌, ◌-◌, ◌%◌, max, String, Bool, true, false, ◌&&◌, not, Option, none, some, get_or,
  List, [], ◌∷◌, ◌++◌, length, ltb, leb, ◌==◌, if◌then◌else◌,
}
use doorboard.Esp32.Wire.{
  Json, null, text, Fields, no_fields, field, MessageType, hello, button_event, knock_event,
  contact_event, heartbeat, ack, other, profile_update, profile_clear, effect_play, WireMessage,
  ProtocolError, Result, ok, err, missing_key, invalid_event, unsupported_inbound, invalid_payload,
  unsupported_version, ack_missing, bad_boot_id, bad_fw_version, bad_proto_v, get, as_full_text,
  equals_int, proto_v, ack_required, decode_wire_message, max_frame_bytes,
}
use doorboard.Esp32.Dedupe.{Dedupe, is_duplicate_inbound}

pub data EventType : Type 0 where
  button_pressed knock_detected contact_changed controller_health : EventType

pub record Event : Type 0 where
  pub event_type : EventType
  pub monotonic_ms : ℕ
  pub payload : Fields

pub data Reason : Type 0 where
  by_hello by_heartbeat heartbeat_timeout read_failure byte_transport_closed : Reason

pub record LinkState : Type 0 where
  pub connected : Bool
  pub changed_at_mono_ms : ℕ
  pub reason : Reason

-- `Esp32TransportOptions`, with the code outside: `loads` is UTF-8 and JSON, `frame_length` the length
-- of a message's JSON, and `valid` the event model's validation.
pub record Setup : Type 0 where
  pub loads : List ℕ → Option Json
  pub frame_length : WireMessage → ℕ
  pub valid : EventType → Fields → Bool
  pub max_retries : ℕ
  pub heartbeat_timeout_ms : ℕ
  pub dedupe_recent_window : ℕ
  pub event_queue_size : ℕ
  pub link_state_queue_size : ℕ
  pub max_pending_acks : ℕ

-- `pending_acks` maps a number to its future, which has a result or not.
pub record Link : Type 0 where
  pub seq : ℕ
  pub fw_version : String
  pub peer_boot_id : Option String
  pub last_heartbeat_mono_ms : Option ℕ
  pub connected : Bool
  pub rx_errors : ℕ
  pub tx_retries : ℕ
  pub tx_timeouts : ℕ
  pub duplicate_rx : ℕ
  pub event_queue_drops : ℕ
  pub link_state_queue_drops : ℕ
  pub protocol_error : Option ProtocolError
  pub dedupe : Dedupe
  pub pending_acks : List (ℕ × Option WireMessage)
  pub events : List Event
  pub link_states : List LinkState
  pub writes : List Bool
  pub written : List WireMessage

-- `_put_latest`, and the same steps before `put_nowait` on the other queues: a full queue loses its
-- oldest entry.
abbrev pub tail {ℓ} : {A : Type ℓ} → List A → List A
tail [] = []
tail (x ∷ xs) = xs

abbrev pub put_latest {ℓ} : {A : Type ℓ} → ℕ → A → List A → List A
put_latest size x q = (if leb size (length q) then tail q else q) ++ x ∷ []

-- 1 where the queue was full.
abbrev pub drops {ℓ} : {A : Type ℓ} → ℕ → List A → ℕ
drops size q = if leb size (length q) then 1 else 0

unfoldable pub put_event : Setup → Event → Link → Link
put_event s e l = record l {
  event_queue_drops = l.event_queue_drops + drops (max 1 s.event_queue_size) l.events;
  events = put_latest (max 1 s.event_queue_size) e l.events;
}

abbrev pub put_link_state : Setup → LinkState → Link → Link
put_link_state s e l = record l {
  link_state_queue_drops =
      l.link_state_queue_drops + drops (max 1 s.link_state_queue_size) l.link_states;
  link_states = put_latest (max 1 s.link_state_queue_size) e l.link_states;
}

abbrev pub same : Bool → Bool → Bool
same true b = b
same false b = not b

abbrev pub changed : Setup → ℕ → Bool → Reason → Link → Link
changed s now c reason l =
    put_link_state s (record { connected = c; changed_at_mono_ms = now; reason = reason })
      (record l { connected = c })

unfoldable pub set_connected : Setup → ℕ → Bool → Reason → Link → Link
set_connected s now c reason l = if same l.connected c then l else changed s now c reason l

-- `(self._seq % 0xFFFFFFFF) + 1`
unfoldable pub next_seq : Link → Link
next_seq l = record l { seq = l.seq % 4294967295 + 1 }

abbrev pub numbered : MessageType → Option ℕ → Fields → Link → WireMessage
numbered t a p l = record {
  v = proto_v;
  seq = (next_seq l).seq;
  message_type = t;
  acked = a;
  payload = p;
}

abbrev pub put_frame : WireMessage → List Bool → Link → Link × Bool
put_frame m [] l = (record l { written = l.written ++ m ∷ [] }, false)
put_frame m (true ∷ outcomes) l =
    (record l { writes = outcomes; written = l.written ++ m ∷ [] }, false)
put_frame m (false ∷ outcomes) l = (record l { writes = outcomes }, true)

-- `encode_wire_message` raises on a message that is too long, and `write` may raise.
unfoldable pub write_message : Setup → WireMessage → Link → Link × Bool
write_message s m l =
    if ltb max_frame_bytes (s.frame_length m) then (l, true) else put_frame m l.writes l

unfoldable pub receive_error : ProtocolError → Link → Link
receive_error e l = record l { rx_errors = suc l.rx_errors; protocol_error = some e }
