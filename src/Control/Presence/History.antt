-- ===== src/Control/Presence/History.antt =====
-- One event for one change (`sync_presence` of
-- apps/control-plane-api/src/control_plane_api/presence_engine.py).
use doorboard.Prelude.{ℕ, ◌≤◌, ◌≡◌, String, true, some, str_eq}
use doorboard.Control.Presence.{ResolvedPresence, SubjectRow, HistoryRow, Database, subject_row}
use doorboard.Control.Presence.Sync.{latest_history_row, same_as}

-- Not newer than `now`.
abbrev pub IsPast : ℕ → HistoryRow → Type 0
IsPast now r = (r.occurred_at ≤ now) × (r.recorded_at ≤ now)

-- The row `n` of the subject is at the time `now`.
abbrev pub IsNow : String → ℕ → HistoryRow → Type 0
IsNow s now n = (str_eq n.subject_id s ≡ true) × (n.occurred_at ≡ now) × (n.recorded_at ≡ now)

-- What a synchronisation leaves alone, and what the history then says.
record Synced (s : String) (d q : Database) (r : ResolvedPresence) : Type 0 where
  subjects : q.subjects ≡ d.subjects
  sources : q.sources ≡ d.sources
  latest : same_as (latest_history_row s q) r ≡ true

record Created (s : String) (d q : Database) : Type 0 where
  row : SubjectRow
  found : subject_row s q.subjects ≡ some row
  history : q.history ≡ d.history
  event_ids : q.event_ids ≡ d.event_ids
