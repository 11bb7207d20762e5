-- ===== src/Door/Store.antt =====
-- `class SessionStore` (apps/door-api/src/door_api/persistence.py): the single row of
-- `session_state` and the two outboxes, changed together in one transaction.
-- The JSON text of `meta_json` is kept as what `json.loads` makes of it.
pub mod Laws
use doorboard.Prelude.{ℕ, ◌+◌, String, Bool, Option, none, some, List, [], ◌∷◌}
use doorboard.Contracts.{SessionState}
use doorboard.Door.Outbox
use doorboard.Door.Outbox.{Outbox, enqueue_locked}

-- `meta_json`: a JSON object with the fields that `restore_from_persistence` reads, or a text that
-- is no JSON object. A field that is absent is `none`.
pub data Meta : Type 0 where
  invalid : Meta
  object :
      (timer_target : Option SessionState) (timer_trigger : Option String)
      (had_cached_profile was_answered : Option Bool) (boot_id : Option String)
      → Meta

pub record PersistedSession : Type 0 where
  pub session_id : ℕ
  pub state : SessionState
  pub trace_id : ℕ
  pub person_id : Option String
  pub display_name : Option String
  pub profile_id : Option String
  pub started_at_monotonic_ms : ℕ
  pub last_transition_monotonic_ms : ℕ
  pub meta_json : Meta

pub record SessionStore {ℓ} (E : Type ℓ) : Type ℓ where
  pub row : Option PersistedSession
  pub media : Outbox E
  pub sync : Outbox E

-- An event as the store sees it: its id and its text.
pub record Keyed {ℓ} (E : Type ℓ) : Type ℓ where
  pub event_id : ℕ
  pub event : E

module _ {ℓ} {E : Type ℓ} where
  unfoldable pub load : SessionStore E → Option PersistedSession
  load s = s.row

  -- `_save_locked`: the row with `id = 1` is inserted or replaced.
  unfoldable pub save : PersistedSession → SessionStore E → SessionStore E
  save p s = record s { row = some p }

  unfoldable pub clear : SessionStore E → SessionStore E
  clear s = record s { row = none }

  -- `sum(self._enqueue_sync_event_locked(event) for event in sync_events)`
  unfoldable pub enqueue_all : List (Keyed E) → ℕ → Outbox E → Outbox E × ℕ
  enqueue_all [] now o = (o, 0)
  enqueue_all (e ∷ es) now o =
      let (o', n) = enqueue_locked e.event_id e.event now o in
      let (o'', m) = enqueue_all es now o' in (o'', n + m)

  -- The part that the two transactions below share: the store, and the rows that each outbox
  -- dropped.
  unfoldable pub deliver : Keyed E → List (Keyed E) → ℕ → SessionStore E → SessionStore E × ℕ × ℕ
  deliver media_event sync_events now s =
      let (media, n) = enqueue_locked media_event.event_id media_event.event now s.media in
      let (sync, m) = enqueue_all sync_events now s.sync in
      (record s { media = media; sync = sync }, n, m)

  unfoldable pub save_with_delivery_events :
      PersistedSession → Keyed E → List (Keyed E) → ℕ → SessionStore E → SessionStore E × ℕ × ℕ
  unfolding save deliver
  save_with_delivery_events p media_event sync_events now s =
      deliver media_event sync_events now (save p s)

  unfoldable pub clear_with_delivery_events :
      Keyed E → List (Keyed E) → ℕ → SessionStore E → SessionStore E × ℕ × ℕ
  unfolding clear deliver
  clear_with_delivery_events media_event sync_events now s =
      deliver media_event sync_events now (clear s)

  unfoldable pub save_with_media_event :
      PersistedSession → Keyed E → ℕ → SessionStore E → SessionStore E × ℕ
  unfolding save
  save_with_media_event p e now s =
      let (media, n) = enqueue_locked e.event_id e.event now s.media in
      (record (save p s) { media = media }, n)

  unfoldable pub clear_with_media_event : Keyed E → ℕ → SessionStore E → SessionStore E × ℕ
  unfolding clear
  clear_with_media_event e now s =
      let (media, n) = enqueue_locked e.event_id e.event now s.media in
      (record (clear s) { media = media }, n)

  -- `save_meta`
  unfoldable pub save_meta : Meta → SessionStore E → SessionStore E
  save_meta m s = elim s.row [
    | none ↦ s
    | some p ↦ record s { row = some (record p { meta_json = m }) }
  ]
