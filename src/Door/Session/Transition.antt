-- ===== src/Door/Session/Transition.antt =====
-- `SessionMachine.transition` and `_persist` (apps/door-api/src/door_api/session.py), stage by
-- stage in the order of the source: the guard, the fields, the events, the store, the timer.
use doorboard.Prelude.{
  ℕ, ◌+◌, str_eq, String, Bool, true, false, ◌&&◌, ◌||◌, not, Option, none, some, List, [], ◌∷◌,
  ◌++◌, get_or, or_keep, if◌then◌else◌, map,
}
use doorboard.Contracts
use doorboard.Contracts.{SessionState, idle, button_pressed, session_end, state_eq, legal}
use doorboard.Door.Store.{
  PersistedSession, object, Keyed, save, save_with_delivery_events, clear_with_delivery_events,
}
use doorboard.Door.Session.Types.{
  SessionConfig, Event, Payload, state_changed, started, ended, Entry, button, approach, Draw,
  Stamp, Machine, Request, returned, assertion_error, Called,
}
use doorboard.Door.Session.Timers.{schedule, cancel_timer}
use doorboard.Door.Session.Outcome.{outcome_for_end}

-- An illegal transition is counted, and that is all.
unfoldable pub refuse : Machine → Machine
refuse m = record m {
  metrics = record m.metrics { illegal_transitions = m.metrics.illegal_transitions + 1 };
}

-- The identity, the clock of the start and the ids of a new session, or the updates of one that
-- runs.
unfoldable pub set_identity : Draw → Request → Machine → Machine
set_identity d r m =
    if state_eq m.state idle
    then record m {
      session_id = some d.session_uuid;
      trace_id = some (get_or r.trace_id d.trace_uuid);
      started_at_mono_ms = d.now_ms;
      person_id = r.person_id;
      display_name = r.display_name;
      profile_id = r.profile_id;
      had_cached_profile = get_or r.had_cached_profile false;
      was_answered = false;
    }
    else record m {
      person_id = or_keep r.person_id m.person_id;
      display_name = or_keep r.display_name m.display_name;
      profile_id = or_keep r.profile_id m.profile_id;
      had_cached_profile =
          if state_eq r.to_state button_pressed
          then get_or r.had_cached_profile m.had_cached_profile
          else m.had_cached_profile;
    }

-- The state, and what is kept about the step itself.
unfoldable pub enter : Draw → Request → Machine → Machine
enter d r m = record m {
  state = r.to_state;
  was_answered = state_eq r.to_state Contracts.answered || m.was_answered;
  last_transition_mono_ms = d.now_ms;
  metrics = record m.metrics { transitions = m.metrics.transitions + 1 };
  draws = m.draws + 1;
}

abbrev event : SessionConfig → Draw → Stamp → ℕ → Payload → Event
event c d s trace p = record {
  event_id = s.event_id;
  occurred_at = s.occurred_at;
  monotonic_ms = d.now_ms;
  door_id = c.door_id;
  trace_id = trace;
  payload = p;
}

-- Does the step end the session: to SESSION_END, or straight to IDLE from an active state.
unfoldable pub ends : SessionState → SessionState → Bool
ends from_state to_state =
    state_eq to_state session_end
    || (state_eq to_state idle && not (state_eq from_state idle || state_eq from_state session_end))

abbrev default_entry : SessionState → Entry
default_entry s = if state_eq s button_pressed then button else approach

-- `state_event`
unfoldable pub changed_event : SessionConfig → Draw → Request → SessionState → ℕ → ℕ → Event
changed_event c d r from_state session trace =
    event c d d.changed trace (state_changed session from_state r.to_state r.trigger r.recipients)

-- The events of a step after `session.state_changed`.
unfoldable pub further_events :
    SessionConfig → Draw → Request → SessionState → Bool → ℕ → ℕ → List Event
further_events c d r from_state was_answered session trace =
    (if state_eq from_state idle
      then event c d d.started trace
          (started session (get_or r.session_entry (default_entry r.to_state)))
        ∷ []
      else [])
    ++ (if ends from_state r.to_state
        then event c d d.ended trace
            (ended session (outcome_for_end was_answered from_state r.trigger))
          ∷ []
        else [])

-- `on_event` of each event, and the two counters of sessions.
unfoldable pub emit : SessionState → SessionState → List Event → Machine → Machine
emit from_state to_state es m = record m {
  events = m.events ++ es;
  metrics = record m.metrics {
    sessions_started =
        if state_eq from_state idle
        then m.metrics.sessions_started + 1
        else m.metrics.sessions_started;
    sessions_ended =
        if ends from_state to_state then m.metrics.sessions_ended + 1 else m.metrics.sessions_ended;
  };
}

-- The row that `_persist` writes.
unfoldable pub persisted : String → ℕ → ℕ → Machine → PersistedSession
persisted boot_id session trace m = record {
  session_id = session;
  state = m.state;
  trace_id = trace;
  person_id = m.person_id;
  display_name = m.display_name;
  profile_id = m.profile_id;
  started_at_monotonic_ms = m.started_at_mono_ms;
  last_transition_monotonic_ms = m.last_transition_mono_ms;
  meta_json =
      object m.timer.target_state (if str_eq m.timer.trigger "" then none else some m.timer.trigger)
        (some m.had_cached_profile) (some m.was_answered) (some boot_id);
}

abbrev pub keyed : Event → Keyed Event
keyed e = record { event_id = e.event_id; event = e }

-- The session is cleared when it goes back to IDLE, and saved otherwise.
unfoldable pub write : Draw → ℕ → ℕ → Event → List Event → Machine → Machine
write d session trace media es m =
    if state_eq m.state idle
    then record m {
      store = (clear_with_delivery_events (keyed media) (map keyed es) d.epoch m.store).0;
      session_id = none;
      trace_id = none;
      person_id = none;
      display_name = none;
      profile_id = none;
      had_cached_profile = false;
      was_answered = false;
    }
    else record m {
      store =
          (save_with_delivery_events (persisted d.boot_id session trace m) (keyed media)
            (map keyed es) d.epoch m.store).0;
    }

module _ (c : SessionConfig) where
  -- From the first event to the timer, once both ids are there.
  unfoldable pub publish : Draw → Request → SessionState → ℕ → ℕ → Machine → Machine
  publish d r from_state session trace m =
      let first = changed_event c d r from_state session trace in
      let more = further_events c d r from_state m.was_answered session trace in
      let m' = emit from_state r.to_state (first ∷ more) m in
      schedule c r.to_state 0 (write d session trace first (first ∷ more) m')

  unless_missing : Draw → Request → SessionState → Option ℕ → Option ℕ → Machine → Called
  unless_missing d r from_state (some session) (some trace) m =
      (publish d r from_state session trace m, returned true)
  unless_missing d r from_state _ _ m = (m, assertion_error)

  -- A legal transition. The two assertions are those in front of `state_event`.
  unfoldable pub execute : Draw → Request → Machine → Called
  unfolding unless_missing
  execute d r m =
      let m' = enter d r (set_identity d r (cancel_timer m)) in
      unless_missing d r m.state m'.session_id m'.trace_id m'

  -- `transition`; what the environment returns is drawn only by a legal one.
  unfoldable pub transition : (ℕ → Draw) → Request → Machine → Called
  transition env r m =
      if legal m.state r.to_state then execute (env m.draws) r m else (refuse m, returned false)

  -- The row is written if both ids are there.
  unfoldable pub saved : String → Option ℕ → Option ℕ → Machine → Called
  saved boot_id (some session) (some trace) m = (
    record m { store = save (persisted boot_id session trace m) m.store; draws = m.draws + 1 },
    returned false,
  )
  saved boot_id _ _ m = (m, assertion_error)

  -- `_persist()` with no event, and the `return False` behind it.
  unfoldable pub persist : (ℕ → Draw) → Machine → Called
  unfolding saved
  persist env m = saved (env m.draws).boot_id m.session_id m.trace_id m
