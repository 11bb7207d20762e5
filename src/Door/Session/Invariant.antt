-- ===== src/Door/Session/Invariant.antt =====
-- What holds of a session machine between two calls (apps/door-api/src/door_api/session.py).
pub mod Stages
pub mod Steps
pub mod Handlers
pub mod Restart
pub mod Timer
pub mod Runs
use doorboard.Prelude.{
  ℕ, ◌+◌, String, ◌≡◌, refl, ◌⊎◌, inl, inr, Bool, true, false, not, Option, none, some, List, [],
  ◌∷◌, arith, is_some, sym, subst, if◌then◌else◌, Bool-cases, Option-cases, map,
}
use doorboard.Contracts.{SessionState, idle, state_eq, legal}
use doorboard.Door.Outbox.Laws.{IsValid as IsValidOutbox}
use doorboard.Door.Store.{
  PersistedSession, Meta, SessionStore, save, clear, deliver, save_with_delivery_events,
  clear_with_delivery_events,
}
use doorboard.Door.Store.Laws.{deliver-IsValid, deliver_reports}
use doorboard.Door.Session.Types.{
  SessionConfig, Event, Draw, Machine, Request, no_timer, Reply, returned, assertion_error, Called,
}
use doorboard.Door.Session.Timers.{plan_for, start, schedule, cancel_timer}
use doorboard.Door.Session.Transition.{
  keyed, refuse, set_identity, enter, emit, changed_event, further_events, persisted, write,
  publish, execute, transition, persist,
}
use doorboard.Door.Session.Restore.{meta_cached, meta_answered}

-- The ids are there exactly when a session is.
abbrev pub HasIds : Machine → Type 0
HasIds m =
    (is_some m.session_id ≡ not (state_eq m.state idle))
    × (is_some m.trace_id ≡ not (state_eq m.state idle))

-- The row of the store says what the memory says.
abbrev pub Mirrors : Machine → PersistedSession → Type 0
Mirrors m p =
    (p.state ≡ m.state)
    × (m.session_id ≡ some p.session_id)
    × (m.trace_id ≡ some p.trace_id)
    × (p.person_id ≡ m.person_id)
    × (p.display_name ≡ m.display_name)
    × (p.profile_id ≡ m.profile_id)
    × (p.started_at_monotonic_ms ≡ m.started_at_mono_ms)
    × (p.last_transition_monotonic_ms ≡ m.last_transition_mono_ms)
    × (meta_cached p.meta_json false ≡ m.had_cached_profile)
    × (meta_answered p.meta_json false ≡ m.was_answered)

-- Nothing is known of a visitor.
abbrev pub IsBlank : Machine → Type 0
IsBlank m =
    (m.person_id ≡ none)
    × (m.display_name ≡ none)
    × (m.profile_id ≡ none)
    × (m.had_cached_profile ≡ false)
    × (m.was_answered ≡ false)

-- In IDLE there is no row and nothing is known; elsewhere the row mirrors the memory.
abbrev pub IsStored : Machine → Type 0
IsStored m =
    ((state_eq m.state idle ≡ true) × (m.store.row ≡ none) × IsBlank m)
    ⊎ ((state_eq m.state idle ≡ false)
        × ((p : PersistedSession) × (m.store.row ≡ some p) × Mirrors m p))

-- The timer is the one of the state.
abbrev pub IsTimed : SessionConfig → Machine → Type 0
IsTimed c m = (e : ℕ) × (m.timer ≡ start (plan_for c m.state) e no_timer)

pub record HasOutboxes (s : SessionStore Event) : Type 0 where
  pub media : IsValidOutbox s.media
  pub sync : IsValidOutbox s.sync

pub record IsValid (c : SessionConfig) (m : Machine) : Type 0 where
  pub ids : HasIds m
  pub stored : IsStored m
  pub timed : IsTimed c m
  pub outboxes : HasOutboxes m.store
