-- ===== src/Door/Session/Log.antt =====
-- The events that a session machine hands out, read as one log
-- (apps/door-api/src/door_api/session.py).
use doorboard.Prelude.{ℕ, ◌+◌, ◌≡◌, Bool, true, false, ◌||◌, List, [], ◌∷◌, if◌then◌else◌}
use doorboard.Contracts.{SessionState, idle, session_end, state_eq, legal}
use doorboard.Door.Session.Types.{Event, Payload, state_changed, started, ended, Machine}

-- The state changes of a log follow the table, each from where the last one led, from `s` to `t`.
abbrev pub follows : SessionState → Payload → SessionState × Bool
follows s (state_changed _ f t _ _) = (t, if state_eq s f then legal f t else false)
follows s (started _ _) = (s, true)
follows s (ended _ _) = (s, true)

abbrev pub Follows : SessionState → List Event → SessionState → Type 0
Follows s [] t = s ≡ t
Follows s (e ∷ es) t = ((follows s e.payload).1 ≡ true) × Follows (follows s e.payload).0 es t

-- How many sessions a log starts, and how many it ends.
abbrev pub starts_in : List Event → ℕ
starts_in [] = 0
starts_in (e ∷ es) = elim e.payload [ started _ _ ↦ 1 | _ ↦ 0 ] + starts_in es

abbrev pub ends_in : List Event → ℕ
ends_in [] = 0
ends_in (e ∷ es) = elim e.payload [ ended _ _ ↦ 1 | _ ↦ 0 ] + ends_in es

-- Is a session open, that is, started and not yet ended?
abbrev pub open_sessions : SessionState → ℕ
open_sessions s = if state_eq s idle || state_eq s session_end then 0 else 1

-- A log that follows the table up to the state, and accounts for the sessions.
pub record IsLogged (m : Machine) : Type 0 where
  pub path : Follows idle m.events m.state
  pub balance : starts_in m.events ≡ ends_in m.events + open_sessions m.state
