-- ===== src/Door/Session/Types.antt =====
-- The data of the session machine (apps/door-api/src/door_api/session.py and config.py). Times are
-- counted in milliseconds. A UUID is only compared, so a number stands for it.
use doorboard.Prelude.{ℕ, String, Bool, false, Option, none, List}
use doorboard.Contracts.{SessionState}
use doorboard.Door.Store.{SessionStore}
use doorboard.Door.Session.Recipients.{Text}

-- `class SessionConfig`: the durations that the session machine reads, and the door's name.
pub record SessionConfig : Type 0 where
  pub ring_timeout : ℕ
  pub visitor_mode_auto_ring : ℕ
  pub offer_delay : ℕ
  pub max_recording : ℕ
  pub review_timeout : ℕ
  pub saved_linger : ℕ
  pub inactivity_timeout : ℕ
  pub approach_timeout : ℕ
  pub session_end_linger : ℕ
  pub door_id : String

-- The defaults of `SessionConfig`.
abbrev pub default_config : SessionConfig
default_config = record {
  ring_timeout = 30000;
  visitor_mode_auto_ring = 2000;
  offer_delay = 3000;
  max_recording = 60000;
  review_timeout = 180000;
  saved_linger = 5000;
  inactivity_timeout = 120000;
  approach_timeout = 10000;
  session_end_linger = 3000;
  door_id = "primary";
}

pub data Entry : Type 0 where
  button touch approach : Entry

-- `_SessionOutcome`
pub data SessionOutcome : Type 0 where
  answered unanswered_timeout message_left abandoned reset : SessionOutcome

-- The payloads of `session.state_changed`, `session.started` and `session.ended`.
pub data Payload : Type 0 where
  state_changed :
      (session_id : ℕ) (from_state to_state : SessionState) (trigger : String)
      (recipients : Option (List Text))
      → Payload
  started : (session_id : ℕ) (entry : Entry) → Payload
  ended : (session_id : ℕ) (outcome : SessionOutcome) → Payload

pub record Event : Type 0 where
  pub event_id : ℕ
  pub occurred_at : ℕ
  pub monotonic_ms : ℕ
  pub door_id : String
  pub trace_id : ℕ
  pub payload : Payload

-- `class SessionMetrics`
pub record SessionMetrics : Type 0 where
  pub transitions : ℕ
  pub illegal_transitions : ℕ
  pub sessions_started : ℕ
  pub sessions_ended : ℕ
  pub timer_fires : ℕ

-- `class _TimerState`: `armed` is a task that is not done, `delay` its sleep.
pub record TimerState : Type 0 where
  pub armed : Bool
  pub delay : ℕ
  pub target_state : Option SessionState
  pub trigger : String

abbrev pub no_timer : TimerState
no_timer = record { armed = false; delay = 0; target_state = none; trigger = "" }

-- What `uuid7_now()` and `datetime.now(UTC)` return for one event.
pub record Stamp : Type 0 where
  pub event_id : ℕ
  pub occurred_at : ℕ

-- What the clocks and the sources of ids return to one transition.
pub record Draw : Type 0 where
  pub now_ms : ℕ
  pub session_uuid : ℕ
  pub trace_uuid : ℕ
  pub boot_id : String
  pub epoch : ℕ
  pub changed : Stamp
  pub started : Stamp
  pub ended : Stamp

-- The fields of `SessionMachine` that change. `events` are the calls of `on_event`, the latest
-- first; `draws` counts the draws from the environment.
pub record Machine : Type 0 where
  pub state : SessionState
  pub session_id : Option ℕ
  pub trace_id : Option ℕ
  pub person_id : Option String
  pub display_name : Option String
  pub profile_id : Option String
  pub had_cached_profile : Bool
  pub was_answered : Bool
  pub started_at_mono_ms : ℕ
  pub last_transition_mono_ms : ℕ
  pub timer : TimerState
  pub metrics : SessionMetrics
  pub store : SessionStore Event
  pub events : List Event
  pub draws : ℕ

-- A call returns a Boolean, or an `assert` in it fails; the object keeps what was written.
pub data Reply : Type 0 where
  returned : Bool → Reply
  assertion_error : Reply

abbrev pub Called : Type 0
Called = Machine × Reply

-- The rest of a body after a call that it makes.
abbrev pub and_then : Called → (Machine → Bool → Called) → Called
and_then (m, returned b) k = k m b
and_then (m, assertion_error) k = (m, assertion_error)

-- The arguments of `transition`.
pub record Request : Type 0 where
  pub to_state : SessionState
  pub trigger : String
  pub trace_id : Option ℕ
  pub person_id : Option String
  pub display_name : Option String
  pub profile_id : Option String
  pub had_cached_profile : Option Bool
  pub session_entry : Option Entry
  pub recipients : Option (List Text)

-- `transition(to_state, trigger)` with the defaults.
abbrev pub plain : SessionState → String → Request
plain s t = record {
  to_state = s;
  trigger = t;
  trace_id = none;
  person_id = none;
  display_name = none;
  profile_id = none;
  had_cached_profile = none;
  session_entry = none;
  recipients = none;
}
