-- ===== src/Door/Session/Restore.antt =====
-- The restart of the session machine (`restore_from_persistence` and `_expire_to_idle` of
-- apps/door-api/src/door_api/session.py).
use doorboard.Prelude.{
  ℕ, ◌-◌, String, Bool, false, ◌&&◌, ◌||◌, not, Option, none, some, str_eq, get_or, ltb, leb, [],
  if◌then◌else◌,
}
use doorboard.Contracts.{idle, session_end, state_eq}
use doorboard.Door.Store.{PersistedSession, Meta, invalid, object, SessionStore, load}
use doorboard.Door.Session.Types.{
  SessionConfig, Event, Draw, Machine, no_timer, plain, returned, Called, and_then,
}
use doorboard.Door.Session.Timers.{schedule}
use doorboard.Door.Session.Transition.{transition}

-- A machine as `SessionMachine(config, store, on_event)` makes it.
abbrev pub fresh : SessionStore Event → Machine
fresh s = record {
  state = idle;
  session_id = none;
  trace_id = none;
  person_id = none;
  display_name = none;
  profile_id = none;
  had_cached_profile = false;
  was_answered = false;
  started_at_mono_ms = 0;
  last_transition_mono_ms = 0;
  timer = no_timer;
  metrics = record {
    transitions = 0;
    illegal_transitions = 0;
    sessions_started = 0;
    sessions_ended = 0;
    timer_fires = 0;
  };
  store = s;
  events = [];
  draws = 0;
}

-- `meta.get("boot_id")` is a text that is not the present one.
abbrev pub boot_changed : Meta → String → Bool
boot_changed invalid boot = false
boot_changed (object _ _ _ _ none) boot = false
boot_changed (object _ _ _ _ (some b)) boot = not (str_eq b boot)

abbrev pub meta_cached : Meta → Bool → Bool
meta_cached invalid b = b
meta_cached (object _ _ cached _ _) b = get_or cached false

abbrev pub meta_answered : Meta → Bool → Bool
meta_answered invalid b = b
meta_answered (object _ _ _ answered _) b = get_or answered false

-- The fields that are taken from the row.
unfoldable pub adopt : PersistedSession → Machine → Machine
adopt p m = record m {
  state = p.state;
  session_id = some p.session_id;
  trace_id = some p.trace_id;
  person_id = p.person_id;
  display_name = p.display_name;
  profile_id = p.profile_id;
  started_at_mono_ms = p.started_at_monotonic_ms;
  last_transition_mono_ms = p.last_transition_monotonic_ms;
  had_cached_profile = meta_cached p.meta_json m.had_cached_profile;
  was_answered = meta_answered p.meta_json m.was_answered;
}

module _ (c : SessionConfig) (env : ℕ → Draw) where
  -- `_expire_to_idle`; the trigger of the second step is `f"auto:{trigger}_to_idle"`.
  unfoldable pub expire_to_idle : String → String → Machine → Called
  expire_to_idle trigger second m =
      if state_eq m.state session_end
      then transition c env (plain idle trigger) m
      else if state_eq m.state idle
      then (m, returned false)
      else and_then (transition c env (plain session_end trigger) m)
          λ m' _. transition c env (plain idle second) m'

  -- Has the clock that the row was stamped by started anew?
  abbrev pub new_epoch : ℕ → String → PersistedSession → Bool
  new_epoch now boot p = boot_changed p.meta_json boot || ltb now p.last_transition_monotonic_ms

  abbrev pub has_expired : ℕ → PersistedSession → Bool
  has_expired now p =
      not (state_eq p.state idle) && leb c.inactivity_timeout (now - p.last_transition_monotonic_ms)

  unfoldable pub resume : ℕ → String → PersistedSession → Machine → Called
  resume now boot p m =
      if new_epoch now boot p
      then expire_to_idle "boot_epoch_changed_on_restore"
          "auto:boot_epoch_changed_on_restore_to_idle" (adopt p m)
      else if has_expired now p
      then expire_to_idle "inactivity_expired_on_restore"
          "auto:inactivity_expired_on_restore_to_idle" (adopt p m)
      else (schedule c p.state (now - p.last_transition_monotonic_ms) (adopt p m), returned false)

  -- A restart with no row, or with one.
  unfoldable pub resume_row : ℕ → String → Option PersistedSession → Machine → Called
  resume_row now boot none m = (record m { state = idle; session_id = none }, returned false)
  resume_row now boot (some p) m = resume now boot p m

  -- `restore_from_persistence`: `now` and `boot` are the monotonic clock and the boot id at start.
  unfoldable pub restore : ℕ → String → Machine → Called
  unfolding resume_row
  restore now boot m = resume_row now boot (load m.store) m
