-- ===== src/Esp32/Link/Inbound.antt =====
-- `_handle_line`, `_handle_ack` and `_to_contract_event` of
-- packages/esp32-link/src/doorboard_esp32_link/esp32.py.
use doorboard.Prelude.{
  ℕ, suc, String, Bool, true, false, Option, none, some, get_or, List, [], ◌∷◌, ◌==◌, if◌then◌else◌,
}
use doorboard.Esp32.Wire.{
  Json, null, text, Fields, no_fields, field, MessageType, hello, button_event, knock_event,
  contact_event, heartbeat, ack, WireMessage, Result, ok, err, missing_key, invalid_event,
  unsupported_inbound, invalid_payload, unsupported_version, ack_missing, bad_boot_id,
  bad_fw_version, bad_proto_v, get, as_full_text, equals_int, proto_v, ack_required,
  decode_wire_message,
}
use doorboard.Esp32.Dedupe.{Dedupe, is_duplicate_inbound}
use doorboard.Esp32.Link.{
  EventType, button_pressed, knock_detected, contact_changed, controller_health, Event, by_hello,
  by_heartbeat, Setup, Link, put_event, set_connected, next_seq, numbered, write_message,
  receive_error,
}

abbrev pub resolve : WireMessage → Option WireMessage → Option WireMessage
resolve m (some r) = some r
resolve m none = some m

-- `future.set_result` on the future of this number, unless it is done.
abbrev pub resolved :
    WireMessage → ℕ → List (ℕ × Option WireMessage) → List (ℕ × Option WireMessage)
resolved m a [] = []
resolved m a ((n, f) ∷ fs) = (n, if n == a then resolve m f else f) ∷ resolved m a fs

abbrev pub ack_for : WireMessage → Option ℕ → Link → Link
ack_for m none l = receive_error ack_missing l
ack_for m (some a) l = record l { pending_acks = resolved m a l.pending_acks }

unfoldable pub handle_ack : WireMessage → Link → Link
handle_ack m l = ack_for m m.acked l

abbrev pub button_payload : Option Json → Option Json → Option Json → Result Fields
button_payload (some p) (some c) (some r) =
    ok (field "press_id" p (field "had_cached_profile" c (field "profile_id" r no_fields)))
button_payload _ _ _ = err missing_key

abbrev pub heartbeat_payload : String → Option Json → Option Json → Option Json → Result Fields
heartbeat_payload fw (some u) c (some f) = ok (
    field "uptime_s" u (
      field "fw_version" (text fw)
        (field "cached_profile_id" (get_or c null) (field "fallback_active" f no_fields))))
heartbeat_payload fw _ c _ = err missing_key

abbrev pub validated : Setup → ℕ → EventType → Result Fields → Result Event
validated s now t (err e) = err e
validated s now t (ok p) =
    if s.valid t p
    then ok (record { event_type = t; monotonic_ms = now; payload = p })
    else err invalid_event

unfoldable pub to_contract_event : Setup → ℕ → Link → MessageType → Fields → Result Event
to_contract_event s now l button_event p =
    validated s now button_pressed
      (button_payload (get "press_id" p) (get "had_cached_profile" p) (get "profile_id" p))
to_contract_event s now l knock_event p = validated s now knock_detected (ok p)
to_contract_event s now l contact_event p = validated s now contact_changed (ok p)
to_contract_event s now l heartbeat p = validated s now controller_health (
    heartbeat_payload l.fw_version (get "uptime_s" p) (get "cached_profile_id" p)
      (get "fallback_active" p))
to_contract_event s now l t p = err (unsupported_inbound t)

-- What a frame is once it is checked: a greeting, or an event.
pub data Inbound : Type 0 where
  greeting : (boot_id fw_version : String) → Inbound
  report : Event → Inbound

abbrev pub greeting_of : Option String → Option String → Bool → Result Inbound
greeting_of none fw proto = err bad_boot_id
greeting_of (some b) none proto = err bad_fw_version
greeting_of (some b) (some fw) false = err bad_proto_v
greeting_of (some b) (some fw) true = ok (greeting b fw)

abbrev pub reported : Result Event → Result Inbound
reported (err e) = err e
reported (ok e) = ok (report e)

unfoldable pub read_inbound : Setup → ℕ → Link → MessageType → Fields → Result Inbound
read_inbound s now l hello p =
    greeting_of (as_full_text (get "boot_id" p)) (as_full_text (get "fw_version" p))
      (equals_int proto_v (get "proto_v" p))
read_inbound s now l t p = reported (to_contract_event s now l t p)

-- The boot that a frame belongs to.
abbrev pub boot_of : Inbound → Link → String
boot_of (greeting b fw) l = b
boot_of (report e) l = get_or l.peer_boot_id "unknown"

abbrev pub beat : Setup → ℕ → EventType → Link → Link
beat s now controller_health l =
    set_connected s now true by_heartbeat (record l { last_heartbeat_mono_ms = some now })
beat s now t l = l

abbrev pub take_in : Setup → ℕ → Inbound → Link → Link
take_in s now (greeting b fw) l =
    set_connected s now true by_hello
      (record l { peer_boot_id = some b; fw_version = fw; last_heartbeat_mono_ms = some now })
take_in s now (report e) l = put_event s e (beat s now e.event_type l)

abbrev pub finish : Setup → ℕ → Inbound → Bool → Link × Bool → Link × Bool
finish s now i repeat (l, true) = (l, true)
finish s now i true (l, false) = (record l { duplicate_rx = suc l.duplicate_rx }, false)
finish s now i false (l, false) = (take_in s now i l, false)

abbrev pub acknowledge : Setup → WireMessage → Link → Link × Bool
acknowledge s m l =
    if ack_required m.message_type
    then write_message s (numbered ack (some m.seq) no_fields l) (next_seq l)
    else (l, false)

-- `self._is_duplicate_inbound(peer_boot_id or "unknown", msg.seq)`
abbrev pub dedupe_step : Setup → WireMessage → Inbound → Link → Dedupe × Bool
dedupe_step s m i l = is_duplicate_inbound s.dedupe_recent_window (boot_of i l) m.seq l.dedupe

abbrev pub handle_inbound : Setup → ℕ → WireMessage → Result Inbound → Link → Link × Bool
handle_inbound s now m (err e) l = (receive_error (invalid_payload m.message_type e) l, false)
handle_inbound s now m (ok i) l =
    finish s now i (dedupe_step s m i l).1
      (acknowledge s m (record l { dedupe = (dedupe_step s m i l).0 }))

abbrev pub handle_typed : Setup → ℕ → WireMessage → MessageType → Link → Link × Bool
handle_typed s now m ack l = (handle_ack m l, false)
handle_typed s now m t l = handle_inbound s now m (read_inbound s now l t m.payload) l

abbrev pub handle_message : Setup → ℕ → Result WireMessage → Link → Link × Bool
handle_message s now (err e) l = (receive_error e l, false)
handle_message s now (ok m) l =
    if m.v == proto_v
    then handle_typed s now m m.message_type l
    else (receive_error (unsupported_version m.v) l, false)

unfoldable pub handle_line : Setup → ℕ → List ℕ → Link → Link × Bool
handle_line s now line l = handle_message s now (decode_wire_message s.loads line) l
