-- ===== src/Sync/Enqueue.antt =====
-- What the sync engine enqueues (apps/door-sync/src/door_sync/engine.py).
use doorboard.Prelude.{ℕ, String, Bool, none, some, if◌then◌else◌}
use doorboard.Sync.Queue.{clip, thumbnail, event, purge, nas, nuc, NewItem, enqueue}
use doorboard.Sync.World.{upload_queued, Action, ◌>>=◌, ◌>>◌, give, effect, commit}

-- The `enqueue_*` methods; the fence has let the path of a recording through.
unfoldable pub enqueue_media : ℕ → NewItem → ℕ → Action Bool
enqueue_media now i recording = do
  newly ← commit (enqueue now i)
  if newly then effect (upload_queued i.item_id recording) else give tt
  give newly

abbrev pub recording_item : ℕ → String → String → ℕ → NewItem
recording_item recording path sha trace = record {
  item_id = recording;
  kind = clip;
  target = nas;
  dest_key = path;
  trace_id = trace;
  recording_id = some recording;
  local_path = some path;
  expected_sha256 = some sha;
  payload = none;
}

abbrev pub thumbnail_item : (ℕ → ℕ) → ℕ → String → ℕ → NewItem
thumbnail_item thumb_item_id recording path trace = record {
  item_id = thumb_item_id recording;
  kind = thumbnail;
  target = nas;
  dest_key = path;
  trace_id = trace;
  recording_id = some recording;
  local_path = some path;
  expected_sha256 = none;
  payload = none;
}

-- The key is `str(event_id)`.
abbrev pub event_item : ℕ → String → String → ℕ → NewItem
event_item event_id key json trace = record {
  item_id = event_id;
  kind = event;
  target = nuc;
  dest_key = key;
  trace_id = trace;
  recording_id = none;
  local_path = none;
  expected_sha256 = none;
  payload = some json;
}

abbrev pub purge_item : (String → ℕ) → String → ℕ → NewItem
purge_item purge_item_id person trace = record {
  item_id = purge_item_id person;
  kind = purge;
  target = nuc;
  dest_key = person;
  trace_id = trace;
  recording_id = none;
  local_path = none;
  expected_sha256 = none;
  payload = some person;
}

unfoldable pub enqueue_recording : ℕ → ℕ → String → String → ℕ → Action Bool
enqueue_recording now recording path sha trace =
    enqueue_media now (recording_item recording path sha trace) recording

unfoldable pub enqueue_thumbnail : (ℕ → ℕ) → ℕ → ℕ → String → ℕ → Action Bool
enqueue_thumbnail thumb_item_id now recording path trace =
    enqueue_media now (thumbnail_item thumb_item_id recording path trace) recording

unfoldable pub enqueue_event : ℕ → ℕ → String → String → ℕ → Action Bool
enqueue_event now event_id key json trace =
    commit (enqueue now (event_item event_id key json trace))

unfoldable pub enqueue_purge : (String → ℕ) → ℕ → String → ℕ → Action Bool
enqueue_purge purge_item_id now person trace =
    commit (enqueue now (purge_item purge_item_id person trace))
