-- ===== src/Sync/Engine/Success.antt =====
-- A clip whose attempt meets no obstacle (`process_item` of
-- apps/door-sync/src/door_sync/engine.py).
use doorboard.Prelude.{ℕ, ◌+◌, ◌≡◌, true, false, some, ◌∷◌, String, str_eq, get_or, is_some}
use doorboard.Sync.Queue.{QueueItem, clip, pending, mark_completed, mark_licensed}
use doorboard.Sync.World.{archived, notified, upload_completed, World}
use doorboard.Sync.Archive.{Settings, Attempt, copied, acknowledged}

-- Nothing is in the way of the clip, and the file has this checksum.
pub record GoesWell (a : Attempt) (i : QueueItem) (recording : ℕ) (sha : String) : Type 0 where
  pub kind : i.kind ≡ clip
  pub status : i.status ≡ pending
  pub path : is_some i.local_path ≡ true
  pub recorded_as : i.recording_id ≡ some recording
  pub inside : a.inside_fence ≡ true
  pub exists : a.exists ≡ true
  pub local : a.local_sha ≡ some sha
  pub declared : get_or i.expected_sha256 sha ≡ sha
  pub still : a.exists_for_upload ≡ true
  pub mounted : a.mounted ≡ true
  pub copy : a.copy ≡ copied
  pub read_back : str_eq a.read_back sha ≡ true
  pub callback : a.callback ≡ acknowledged

module _ (st : Settings) where
  -- The world in which a clip is archived, reported and licensed.
  abbrev pub done : Attempt → QueueItem → ℕ → String → ℕ → World → World
  done a i recording sha n w = record w {
    queue = mark_licensed a.now i.item_id (mark_completed a.now i.item_id (some sha) false w.queue);
    log =
        upload_completed i.item_id sha (i.attempts + 1)
        ∷ notified i.item_id recording sha (i.attempts + 1)
        ∷ archived i.item_id i.dest_key sha
        ∷ w.log;
    left = n;
  }
