-- ===== src/Esp32/Send.antt =====
-- Sending, with the wait for the ack (`send`, `send_event`, `wire_message_from_event`, the hello of
-- `start` and the body of `_heartbeat_loop` of packages/esp32-link/src/doorboard_esp32_link/esp32.py).
-- What the transport reads during each wait is an argument. A send that runs at the same time as
-- another has no model.
use doorboard.Prelude.{
  ℕ, zero, suc, ◌-◌, ◌/◌, String, Bool, true, false, Option, none, some, List, [], ◌∷◌, ◌++◌,
  length, leb, ◌==◌, if◌then◌else◌,
}
use doorboard.Esp32.Wire.{
  text, number, boolean, Fields, no_fields, field, MessageType, hello, heartbeat, profile_update,
  profile_clear, effect_play, WireMessage, Result, ok, err, unsupported_outbound, proto_v,
  ack_required,
}
use doorboard.Esp32.Link.{Setup, Link, next_seq, numbered, write_message}
use doorboard.Esp32.Frames.{Receiver, with_link, on_link, read_turn}

pub data Sent : Type 0 where
  unacknowledged : Sent
  acknowledged : WireMessage → Sent
  already_awaiting too_many timed_out write_failed : Sent

abbrev pub Pending : Type 0
Pending = List (ℕ × Option WireMessage)

abbrev pub awaits : ℕ → Pending → Bool
awaits n [] = false
awaits n ((m, f) ∷ fs) = if m == n then true else awaits n fs

-- The result of the future of this number, when it has one.
abbrev pub answer_of : ℕ → Pending → Option WireMessage
answer_of n [] = none
answer_of n ((m, f) ∷ fs) = if m == n then f else answer_of n fs

-- `pop(seq, None)`
abbrev pub forget : ℕ → Pending → Pending
forget n [] = []
forget n ((m, f) ∷ fs) = let rest = forget n fs in if m == n then rest else (m, f) ∷ rest

-- What is read, each with the clock.
abbrev pub Arrivals : Type 0
Arrivals = List (ℕ × List ℕ)

unfoldable pub arrive : Setup → Arrivals → Receiver → Receiver
arrive s [] r = r
arrive s ((now, bytes) ∷ cs) r = arrive s cs (read_turn s now bytes r)

abbrev pub count_retry : Link → Link
count_retry l = record l { tx_retries = suc l.tx_retries }

abbrev pub count_timeout : Link → Link
count_timeout l = record l { tx_timeouts = suc l.tx_timeouts }

abbrev pub unless_answered :
    Option WireMessage → Receiver → (Receiver → Receiver × Sent) → Receiver × Sent
unless_answered (some a) r next = (r, acknowledged a)
unless_answered none r next = next r

abbrev pub wait_for :
    Setup → ℕ → Arrivals → Receiver × Bool → (Receiver → Receiver × Sent) → Receiver × Sent
wait_for s n cs (r, true) next = (r, write_failed)
wait_for s n cs (r, false) next =
    unless_answered (answer_of n (arrive s cs r).link.pending_acks) (arrive s cs r) next

abbrev pub write_on : Setup → WireMessage → Receiver → Receiver × Bool
write_on s m r = with_link r (write_message s m r.link)

-- The attempts: `left` more follow this one, which is the number `k`.
unfoldable pub attempts : Setup → WireMessage → (ℕ → Arrivals) → ℕ → ℕ → Receiver → Receiver × Sent
attempts s m during zero k r =
    wait_for s m.seq (during k) (write_on s m r) (λ q. (on_link count_timeout q, timed_out))
attempts s m during (suc left) k r =
    wait_for s m.seq (during k) (write_on s m r)
      (λ q. attempts s m during left (suc k) (on_link count_retry q))

abbrev pub add_pending : ℕ → Link → Link
add_pending n l = record l { pending_acks = l.pending_acks ++ (n, none) ∷ [] }

abbrev pub drop_pending : ℕ → Link → Link
drop_pending n l = record l { pending_acks = forget n l.pending_acks }

abbrev pub finally_forget : ℕ → Receiver × Sent → Receiver × Sent
finally_forget n (r, o) = (on_link (drop_pending n) r, o)

abbrev pub send_tracked : Setup → WireMessage → (ℕ → Arrivals) → Receiver → Receiver × Sent
send_tracked s m during r =
    finally_forget m.seq (attempts s m during s.max_retries 0 (on_link (add_pending m.seq) r))

abbrev pub written_once : Receiver × Bool → Receiver × Sent
written_once (r, true) = (r, write_failed)
written_once (r, false) = (r, unacknowledged)

abbrev pub send_awaited : Setup → WireMessage → (ℕ → Arrivals) → Receiver → Receiver × Sent
send_awaited s m during r =
    if awaits m.seq r.link.pending_acks
    then (r, already_awaiting)
    else if leb s.max_pending_acks (length r.link.pending_acks)
    then (r, too_many)
    else send_tracked s m during r

unfoldable pub send : Setup → WireMessage → (ℕ → Arrivals) → Receiver → Receiver × Sent
send s m during r =
    if ack_required m.message_type then send_awaited s m during r else written_once (write_on s m r)

-- The events that the controller takes, with what the frame needs of them.
pub data Outbound : Type 0 where
  profile_update_event :
      (profile_id : String) (expires_at_monotonic_ms : ℕ) (priority : String) → Outbound
  profile_clear_event : (reason : String) → Outbound
  effect_play_event : (effect_id : String) (duration_ms : ℕ) → Outbound
  other_event : Outbound

abbrev pub message : ℕ → MessageType → Fields → WireMessage
message n t p = record { v = proto_v; seq = n; message_type = t; acked = none; payload = p }

-- `max(0, expires_at_monotonic_ms - current_mono_ms)`
unfoldable pub wire_message_from_event : Outbound → ℕ → ℕ → Result WireMessage
wire_message_from_event (profile_update_event p at prio) n now = ok (
    message n profile_update (
      field "profile_id" (text p)
        (field "ttl_ms" (number (at - now)) (field "priority" (text prio) no_fields))))
wire_message_from_event (profile_clear_event reason) n now =
    ok (message n profile_clear (field "reason" (text reason) no_fields))
wire_message_from_event (effect_play_event e d) n now =
    ok (
      message n effect_play (field "effect_id" (text e) (field "duration_ms" (number d) no_fields)))
wire_message_from_event other_event n now = err unsupported_outbound

abbrev pub send_result :
    Setup → Result WireMessage → (ℕ → Arrivals) → Receiver → Receiver × Option Sent
send_result s (err e) during r = (r, none)
send_result s (ok m) during r = ((send s m during r).0, some (send s m during r).1)

-- `none` where the event is not one that the controller takes.
unfoldable pub send_event :
    Setup → ℕ → Outbound → (ℕ → Arrivals) → Receiver → Receiver × Option Sent
send_event s now e during r =
    send_result s (wire_message_from_event e (next_seq r.link).seq now) during (on_link next_seq r)

-- A failure is suppressed.
unfoldable pub send_heartbeat : Setup → ℕ → Receiver → Receiver
send_heartbeat s now r =
    (write_on s
      (numbered heartbeat none
        (field "uptime_s" (number (now / 1000)) (field "fallback_active" (boolean false) no_fields))
        r.link)
      (on_link next_seq r)).0

unfoldable pub send_hello : Setup → String → String → (ℕ → Arrivals) → Receiver → Receiver × Sent
send_hello s sw boot during r =
    send s
      (numbered hello none
        (field "sw_version" (text sw)
          (field "proto_v" (number proto_v) (field "boot_id" (text boot) no_fields)))
        r.link)
      during (on_link next_seq r)
