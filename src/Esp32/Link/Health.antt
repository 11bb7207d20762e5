-- ===== src/Esp32/Link/Health.antt =====
-- What the link says of itself (`status`, `health_check`, `metrics` and the heartbeat's timeout of
-- packages/esp32-link/src/doorboard_esp32_link/esp32.py).
use doorboard.Prelude.{ℕ, ◌-◌, Bool, true, false, Option, none, some, get_or, ltb, if◌then◌else◌}
use doorboard.Esp32.Wire.{ProtocolError}
use doorboard.Esp32.Link.{heartbeat_timeout, Setup, Link, set_connected}

abbrev pub is_silent : Setup → ℕ → Option ℕ → Bool
is_silent s now none = false
is_silent s now (some at) = ltb s.heartbeat_timeout_ms (now - at)

abbrev pub after_silence : Setup → ℕ → Bool → Link → Link
after_silence s now false l = l
after_silence s now true l =
    if is_silent s now l.last_heartbeat_mono_ms
    then set_connected s now false heartbeat_timeout l
    else l

unfoldable pub apply_heartbeat_timeout : Setup → ℕ → Link → Link
apply_heartbeat_timeout s now l = after_silence s now l.connected l

pub record Metrics : Type 0 where
  pub connected : ℕ
  pub last_heartbeat_mono_ms : ℕ
  pub rx_errors : ℕ
  pub tx_retries : ℕ
  pub tx_timeouts : ℕ
  pub duplicate_rx : ℕ
  pub event_queue_drops : ℕ
  pub link_state_queue_drops : ℕ

abbrev pub metrics_of : Link → Metrics
metrics_of l = record {
  connected = if l.connected then 1 else 0;
  last_heartbeat_mono_ms = get_or l.last_heartbeat_mono_ms 0;
  rx_errors = l.rx_errors;
  tx_retries = l.tx_retries;
  tx_timeouts = l.tx_timeouts;
  duplicate_rx = l.duplicate_rx;
  event_queue_drops = l.event_queue_drops;
  link_state_queue_drops = l.link_state_queue_drops;
}

unfoldable pub metrics : Setup → ℕ → Link → Link × Metrics
metrics s now l = (apply_heartbeat_timeout s now l, metrics_of (apply_heartbeat_timeout s now l))

pub record Status : Type 0 where
  pub connected : Bool
  pub last_heartbeat_mono_ms : Option ℕ
  pub rx_errors : ℕ
  pub tx_retries : ℕ

abbrev pub status_of : Link → Status
status_of l = record {
  connected = l.connected;
  last_heartbeat_mono_ms = l.last_heartbeat_mono_ms;
  rx_errors = l.rx_errors;
  tx_retries = l.tx_retries;
}

unfoldable pub status : Setup → ℕ → Link → Link × Status
status s now l = (apply_heartbeat_timeout s now l, status_of (apply_heartbeat_timeout s now l))

pub data Health : Type 0 where
  healthy : Health
  degraded : ProtocolError → Health
  down : Health

abbrev pub health_of : Option ProtocolError → Bool → Health
health_of (some e) c = degraded e
health_of none true = healthy
health_of none false = down

unfoldable pub health_check : Setup → ℕ → Link → Link × Health
health_check s now l = (
  apply_heartbeat_timeout s now l,
  health_of (apply_heartbeat_timeout s now l).protocol_error
      (apply_heartbeat_timeout s now l).connected,
)
