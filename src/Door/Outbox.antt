-- ===== src/Door/Outbox.antt =====
-- One outbox table of apps/door-api/src/door_api/persistence.py. `media_outbox` and `sync_outbox`
-- have the same columns and the same statements, so they are two values of one type.
-- The rows stand in rowid order, which is the order of insertion. `event_id` is the primary key; a
-- text is only compared, so a number stands for it. Epochs are counted in milliseconds.
pub mod Rows
pub mod Laws
use doorboard.Prelude.{
  ℕ, ◌+◌, ◌-◌, String, Bool, true, false, Option, none, some, List, [], ◌∷◌, ◌++◌, length, drop,
  ltb, leb, ◌==◌, if◌then◌else◌,
}

pub record Row {ℓ} (E : Type ℓ) : Type ℓ where
  pub event_id : ℕ
  pub event : E
  pub attempts : ℕ
  pub next_attempt_epoch : ℕ
  pub created_epoch : ℕ
  pub last_error : Option String

pub record Outbox {ℓ} (E : Type ℓ) : Type ℓ where
  pub rows : List (Row E)
  pub dropped_total : ℕ
  pub max_rows : ℕ

-- `MediaOutboxItem`, `SyncOutboxItem`
pub record Item {ℓ} (E : Type ℓ) : Type ℓ where
  pub event_id : ℕ
  pub event : E
  pub attempts : ℕ

module _ {ℓ} {E : Type ℓ} where
  -- `SELECT 1 FROM outbox WHERE event_id = ?`
  abbrev pub has_id : ℕ → List (Row E) → Bool
  has_id k [] = false
  has_id k (r ∷ rs) = if r.event_id == k then true else has_id k rs

  -- `DELETE FROM outbox WHERE event_id = ?`
  abbrev pub delete : ℕ → List (Row E) → List (Row E)
  delete k [] = []
  delete k (r ∷ rs) = let rest = delete k rs in if r.event_id == k then rest else r ∷ rest

  -- `UPDATE outbox SET attempts, next_attempt_epoch, last_error WHERE event_id = ?`
  abbrev pub reschedule : ℕ → ℕ → ℕ → String → List (Row E) → List (Row E)
  reschedule k n at e [] = []
  reschedule k n at e (r ∷ rs) =
      (if r.event_id == k
        then record r { attempts = n; next_attempt_epoch = at; last_error = some e }
        else r)
      ∷ reschedule k n at e rs

  abbrev new_row : ℕ → E → ℕ → Row E
  new_row k e now = record {
    event_id = k;
    event = e;
    attempts = 0;
    next_attempt_epoch = 0;
    created_epoch = now;
    last_error = none;
  }

  -- `max(0, count - max_rows + 1)`
  abbrev pub excess : Outbox E → ℕ
  excess o = length o.rows + 1 - o.max_rows

  -- `_enqueue_media_event_locked` and `_enqueue_sync_event_locked`, behind their test of
  -- `event_id`: the number of old rows that made room is returned beside the table.
  unfoldable pub enqueue_locked : ℕ → E → ℕ → Outbox E → Outbox E × ℕ
  enqueue_locked k e now o = if has_id k o.rows then (o, 0) else (
    record o {
      rows = drop (excess o) o.rows ++ new_row k e now ∷ [];
      dropped_total = o.dropped_total + excess o;
    },
    excess o,
  )

  -- The whole of the two functions: `none` is the `ValueError` on an event whose `event_id` is not
  -- a non-empty text.
  unfoldable pub enqueue_event : Option ℕ → E → ℕ → Outbox E → Option (Outbox E × ℕ)
  enqueue_event none e now o = none
  enqueue_event (some k) e now o = some (enqueue_locked k e now o)

  -- The head of the table if it is due; the rows behind it wait.
  next_of : List (Row E) → ℕ → Option (Item E)
  next_of [] now = none
  next_of (r ∷ rs) now =
      if ltb now r.next_attempt_epoch
      then none
      else some (record { event_id = r.event_id; event = r.event; attempts = r.attempts })

  -- `next_media_event`, `next_sync_event`
  unfoldable pub next_event : Outbox E → ℕ → Option (Item E)
  unfolding next_of
  next_event o now = next_of o.rows now

  -- `complete_media_event`, `complete_sync_event`
  unfoldable pub complete_event : ℕ → Outbox E → Outbox E
  complete_event k o = record o { rows = delete k o.rows }

  -- `retry_media_event`, `retry_sync_event`; `error` is the text after its cut to 500 characters
  unfoldable pub retry_event : ℕ → ℕ → ℕ → String → Outbox E → Outbox E
  retry_event k attempts at error o = record o { rows = reschedule k attempts at error o.rows }

  -- `media_outbox_depth`, `sync_outbox_depth`
  abbrev pub depth : Outbox E → ℕ
  depth o = length o.rows
