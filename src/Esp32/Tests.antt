-- ===== src/Esp32/Tests.antt =====
-- The theorems of the controller's link at concrete inputs, and runs of it
-- (packages/esp32-link/src/doorboard_esp32_link/esp32.py).
use doorboard.Prelude.{
  ℕ, ◌≤◌, max, ◌≡◌, refl, String, true, false, Option, none, some, is_some, List, [], ◌∷◌, length,
  ◌==◌, if◌then◌else◌,
}
use doorboard.Esp32.Wire.{
  Json, boolean, number, text, object, Fields, no_fields, field, effect_play, button_event,
  WireMessage, decode_wire_message, ack_required,
}
use doorboard.Esp32.Dedupe.{fresh, is_duplicate_inbound}
use doorboard.Esp32.Dedupe.Seen.{answers, ideal_answers, no_memory, is_duplicate_inbound-answers}
use doorboard.Esp32.Dedupe.Bound.{after, is_duplicate_inbound-bounded}
use doorboard.Esp32.Link.{
  button_pressed, Event, Setup, Link, next_seq, write_message, receive_error,
}
use doorboard.Esp32.Link.Health.{status, health_check}
use doorboard.Esp32.Link.Inbound.{to_contract_event, read_inbound, handle_line}
use doorboard.Esp32.Frames.{Receiver, receive_byte, receive_bytes, read_turn}
use doorboard.Esp32.Send.{timed_out, arrive, attempts, send}
use doorboard.Esp32.Life.Happenings.{
  Happening, read, looked, took_event, took_link_state, sent, beat_sent, happen_all, made,
}
use doorboard.Esp32.Life.Sound.{Sound, happenings-Sound}
use doorboard.Esp32.Life.Reports.{IsFresh, status-IsFresh, is_degraded, health_check-degraded}
use doorboard.Esp32.Life.Counts.{counts, Accounts, send-Accounts}

abbrev frames : List (String × ℕ)
frames = ("a", 1) ∷ ("a", 9) ∷ ("a", 4) ∷ ("a", 9) ∷ ("b", 1) ∷ ("b", 7) ∷ ("b", 1) ∷ []

is_duplicate_inbound-answers_example : answers 4 frames fresh ≡ ideal_answers 4 frames no_memory
is_duplicate_inbound-answers_example = is_duplicate_inbound-answers 4 frames

-- With a window of 4, number 4 comes too late after 9, and each boot has its own numbers.
answers_run : answers 4 frames fresh ≡ false ∷ false ∷ true ∷ true ∷ false ∷ false ∷ true ∷ []
unfolding is_duplicate_inbound
answers_run = refl

is_duplicate_inbound-bounded_example : length (after 2 frames fresh).recent_seqs ≤ max 1 2
is_duplicate_inbound-bounded_example = is_duplicate_inbound-bounded 2 frames

-- Three lines: the byte that they begin with says which.
abbrev hello_fields : Fields
hello_fields =
    field "boot_id" (text "b1")
      (field "fw_version" (text "1.2") (field "proto_v" (number 1) no_fields))

abbrev press_fields : Fields
press_fields =
    field "press_id" (text "p1")
      (field "had_cached_profile" (boolean false) (field "profile_id" (text "calm") no_fields))

abbrev frame : ℕ → String → Fields → Json
frame n t p = object (
    field "ack" Json.null (
      field "p" (object p)
        (field "seq" (number n) (field "t" (text t) (field "v" (number 1) no_fields)))))

abbrev loads : List ℕ → Option Json
loads [] = none
loads (b ∷ rest) =
    if b == 65
    then some (frame 1 "hello" hello_fields)
    else if b == 66
    then some (frame 2 "button_event" press_fields)
    else none

abbrev setup : Setup
setup = record {
  loads = loads;
  frame_length = λ m. 100;
  valid = λ t p. true;
  max_retries = 3;
  heartbeat_timeout_ms = 5000;
  dedupe_recent_window = 256;
  event_queue_size = 256;
  link_state_queue_size = 64;
  max_pending_acks = 64;
}

abbrev two_lines : List (List ℕ)
two_lines = (65 ∷ 13 ∷ []) ∷ [] ∷ (66 ∷ []) ∷ []

-- The same bytes, in three chunks.
abbrev chunks : List (List ℕ)
chunks = (65 ∷ []) ∷ (13 ∷ 10 ∷ 10 ∷ 66 ∷ []) ∷ (10 ∷ []) ∷ []

abbrev play : WireMessage
play = record { v = 1; seq = 5; message_type = effect_play; acked = none; payload = no_fields }

abbrev happenings : List Happening
happenings =
    read 10 (65 ∷ 10 ∷ 66 ∷ [])
    ∷ read 11 (10 ∷ [])
    ∷ sent play (λ k. [])
    ∷ took_event
    ∷ beat_sent 20
    ∷ looked 6000
    ∷ took_link_state
    ∷ []

happenings-Sound_example : Sound setup (happen_all setup happenings (made (true ∷ false ∷ []))).link
happenings-Sound_example = happenings-Sound setup (true ∷ false ∷ []) happenings

status-IsFresh_example :
    IsFresh 5000 15
      (status setup 15 (happen_all setup (read 10 (65 ∷ 10 ∷ []) ∷ []) (made [])).link).1.connected
      (status setup 15
        (happen_all setup (read 10 (65 ∷ 10 ∷ []) ∷ []) (made [])).link).1.last_heartbeat_mono_ms
status-IsFresh_example = status-IsFresh setup [] (read 10 (65 ∷ 10 ∷ []) ∷ []) 15

-- A line that is no JSON.
abbrev noisy : Receiver
noisy = happen_all setup (read 3 (67 ∷ 10 ∷ []) ∷ []) (made [])

noisy_error : is_some noisy.link.protocol_error ≡ true
unfolding read_turn receive_bytes receive_byte handle_line decode_wire_message receive_error
noisy_error = refl

health_check-degraded_example :
    is_degraded
      (health_check setup 12 (happen_all setup (read 10 (65 ∷ 10 ∷ []) ∷ []) noisy).link).1
    ≡ true
health_check-degraded_example =
    health_check-degraded setup (read 10 (65 ∷ 10 ∷ []) ∷ []) 12 noisy noisy_error

play_required : ack_required effect_play ≡ true
unfolding ack_required
play_required = refl

send-Accounts_example :
    Accounts 3
      (counts (made []).link)
      (counts (send setup play (λ k. []) (made [])).0.link)
      (send setup play (λ k. []) (made [])).1
send-Accounts_example = send-Accounts setup play (λ k. []) (made []) play_required

-- Nothing answers: four writes, three retries, one timeout.
send_run : (send setup play (λ k. []) (made [])).1 ≡ timed_out
unfolding send attempts write_message arrive ack_required
send_run = refl

abbrev press : WireMessage
press = record { v = 1; seq = 2; message_type = button_event; acked = none; payload = press_fields }

abbrev press_event : Event
press_event = record { event_type = button_pressed; monotonic_ms = 4; payload = press_fields }

abbrev dumb : Link
dumb = (made (false ∷ [])).link

press_lost : (handle_line setup 9 (66 ∷ []) (handle_line setup 4 (66 ∷ []) dumb).0).0.events ≡ []
unfolding handle_line decode_wire_message read_inbound to_contract_event is_duplicate_inbound
    write_message ack_required next_seq
press_lost = refl
