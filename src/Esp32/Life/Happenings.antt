-- ===== src/Esp32/Life/Happenings.antt =====
-- Everything that happens to the link, the consumers of its queues and its tasks included
-- (packages/esp32-link/src/doorboard_esp32_link/esp32.py).
use doorboard.Prelude.{
  ℕ, zero, suc, Bool, true, false, none, some, Option, Bool-cases, inl, inr, List, [], ◌∷◌, length,
  leb, ◌/◌,
}
use doorboard.Esp32.Wire.{WireMessage, ack_required, heartbeat, field, number, boolean, no_fields}
use doorboard.Esp32.Dedupe.{fresh}
use doorboard.Esp32.Link.{heartbeat_timeout, Setup, Link, tail, next_seq, numbered}
use doorboard.Esp32.Link.Health.{is_silent, after_silence, apply_heartbeat_timeout}
use doorboard.Esp32.Frames.{Receiver, on_link, read_turn}
use doorboard.Esp32.Send.{
  Sent, Arrivals, arrive, awaits, answer_of, unless_answered, wait_for, write_on, attempts,
  add_pending, drop_pending, count_retry, count_timeout, written_once, send, send_heartbeat,
  timed_out,
}
use doorboard.Esp32.Life.{Closed, put, read_turn_keeps, arrive_keeps, write_message_keeps}

pub data Happening : Type 0 where
  read : (now : ℕ) (bytes : List ℕ) → Happening
  looked : (now : ℕ) → Happening
  took_event took_link_state : Happening
  sent : WireMessage → (ℕ → Arrivals) → Happening
  beat_sent : (now : ℕ) → Happening

-- `await self._events.get()`
abbrev pub take_event : Link → Link
take_event l = record l { events = tail l.events }

abbrev pub take_link_state : Link → Link
take_link_state l = record l { link_states = tail l.link_states }

abbrev pub happen : Setup → Happening → Receiver → Receiver
happen s (read now bytes) r = read_turn s now bytes r
happen s (looked now) r = on_link (apply_heartbeat_timeout s now) r
happen s took_event r = on_link take_event r
happen s took_link_state r = on_link take_link_state r
happen s (sent m during) r = (send s m during r).0
happen s (beat_sent now) r = send_heartbeat s now r

abbrev pub happen_all : Setup → List Happening → Receiver → Receiver
happen_all s [] r = r
happen_all s (h ∷ hs) r = happen_all s hs (happen s h r)

-- The link as it is made, with the outcomes of the writes to come.
abbrev pub made : List Bool → Receiver
made ws = record {
  line_buffer = [];
  discarding_oversize_line = false;
  link = record {
    seq = 0;
    fw_version = "unknown";
    peer_boot_id = none;
    last_heartbeat_mono_ms = none;
    connected = false;
    rx_errors = 0;
    tx_retries = 0;
    tx_timeouts = 0;
    duplicate_rx = 0;
    event_queue_drops = 0;
    link_state_queue_drops = 0;
    protocol_error = none;
    dedupe = fresh;
    pending_acks = [];
    events = [];
    link_states = [];
    writes = ws;
    written = [];
  };
}

-- The steps of an attempt to send.
pub record ClosedAttempt (P : Link → Type 0) : Type 0 where
  pub on_own_frame : (m : WireMessage) (ws : List Bool) (l : Link) → P l → P (put m ws l)
  pub on_retry : (l : Link) → P l → P (count_retry l)
  pub on_timeout : (l : Link) → P l → P (count_timeout l)

-- The other steps that are not of a handler of a line.
pub record ClosedOutside (P : Link → Type 0) : Type 0 where
  pub on_attempt : ClosedAttempt P
  pub on_take_event : (l : Link) → P l → P (take_event l)
  pub on_take_link_state : (l : Link) → P l → P (take_link_state l)
  pub on_add : (n : ℕ) (l : Link) → P l → P (add_pending n l)
  pub on_drop : (n : ℕ) (l : Link) → P l → P (drop_pending n l)

module _ (s : Setup) (P : Link → Type 0) (c : Closed s P) where
  apply_heartbeat_timeout_keeps : (now : ℕ) (l : Link) → P l → P (apply_heartbeat_timeout s now l)
  unfolding apply_heartbeat_timeout
  apply_heartbeat_timeout_keeps now l h = silence l.connected
    where
      silence : (b : Bool) → P (after_silence s now b l)
      silence false = h
      silence true = elim (Bool-cases (is_silent s now l.last_heartbeat_mono_ms)) [
        | inl e ↦ rw e (c.on_loss now heartbeat_timeout l h)
        | inr e ↦ rw e h
      ]

module _ (s : Setup) (P : Link → Type 0) (c : Closed s P) (o : ClosedAttempt P) where
  pub write_on_keeps : (m : WireMessage) (r : Receiver) → P r.link → P (write_on s m r).0.link
  write_on_keeps m r h = write_message_keeps s P c m (o.on_own_frame m) r.link h

  answered_keeps :
      (a : Option WireMessage) (q : Receiver) (next : Receiver → Receiver × Sent)
      → P q.link
      → ((q : Receiver) → P q.link → P (next q).0.link)
      → P (unless_answered a q next).0.link
  answered_keeps (some a) q next h k = h
  answered_keeps none q next h k = k q h

  wait_for_keeps :
      (n : ℕ) (cs : Arrivals) (w : Receiver × Bool) (next : Receiver → Receiver × Sent)
      → P w.0.link
      → ((q : Receiver) → P q.link → P (next q).0.link)
      → P (wait_for s n cs w next).0.link
  wait_for_keeps n cs (r, true) next h k = h
  wait_for_keeps n cs (r, false) next h k =
      answered_keeps (answer_of n (arrive s cs r).link.pending_acks) (arrive s cs r) next
        (arrive_keeps s P c cs r h) k

  pub attempts_keep :
      (m : WireMessage) (during : ℕ → Arrivals) (left k : ℕ) (r : Receiver)
      → P r.link
      → P (attempts s m during left k r).0.link
  unfolding attempts
  attempts_keep m during zero k r h =
      wait_for_keeps m.seq (during k) (write_on s m r) (λ q. (on_link count_timeout q, timed_out))
        (write_on_keeps m r h) (λ q hq. o.on_timeout q.link hq)
  attempts_keep m during (suc left) k r h =
      wait_for_keeps m.seq (during k) (write_on s m r)
        (λ q. attempts s m during left (suc k) (on_link count_retry q)) (write_on_keeps m r h)
        (λ q hq. attempts_keep m during left (suc k) (on_link count_retry q) (o.on_retry q.link hq))

module _ (s : Setup) (P : Link → Type 0) (c : Closed s P) (o : ClosedOutside P) where
  written_once_keeps : (w : Receiver × Bool) → P w.0.link → P (written_once w).0.link
  written_once_keeps (r, true) h = h
  written_once_keeps (r, false) h = h

  send_keeps :
      (m : WireMessage) (during : ℕ → Arrivals) (r : Receiver)
      → P r.link
      → P (send s m during r).0.link
  unfolding send
  send_keeps m during r h = elim (Bool-cases (ack_required m.message_type)) [
    | inr e ↦ rw e (written_once_keeps (write_on s m r) (write_on_keeps s P c o.on_attempt m r h))
    | inl e ↦ rw e (elim (Bool-cases (awaits m.seq r.link.pending_acks)) [
      | inl f ↦ rw f h
      | inr f ↦ rw f (elim (Bool-cases (leb s.max_pending_acks (length r.link.pending_acks))) [
        | inl g ↦ rw g h
        | inr g ↦
            let q = on_link (add_pending m.seq) r in
            rw g (
              o.on_drop m.seq (attempts s m during s.max_retries 0 q).0.link (
                attempts_keep s P c o.on_attempt m during s.max_retries 0 q
                  (o.on_add m.seq r.link h)))
      ])
    ])
  ]

  happen_keeps : (h : Happening) (r : Receiver) → P r.link → P (happen s h r).link
  unfolding send_heartbeat
  happen_keeps (read now bytes) r p = read_turn_keeps s P c now bytes r p
  happen_keeps (looked now) r p = apply_heartbeat_timeout_keeps s P c now r.link p
  happen_keeps took_event r p = o.on_take_event r.link p
  happen_keeps took_link_state r p = o.on_take_link_state r.link p
  happen_keeps (sent m during) r p = send_keeps m during r p
  happen_keeps (beat_sent now) r p =
      write_on_keeps s P c o.on_attempt
        (numbered heartbeat none
          (field "uptime_s" (number (now / 1000))
            (field "fallback_active" (boolean false) no_fields))
          r.link)
        (on_link next_seq r) (c.on_seq r.link p)

  pub happen_all_keeps :
      (hs : List Happening) (r : Receiver) → P r.link → P (happen_all s hs r).link
  happen_all_keeps [] r p = p
  happen_all_keeps (h ∷ hs) r p = happen_all_keeps hs (happen s h r) (happen_keeps h r p)
