-- ===== src/Sync/Tests.antt =====
-- The theorems of the upload queue and its engine at concrete inputs
-- (apps/door-sync/src/door_sync/queue.py and engine.py).
use doorboard.Prelude.{
  ◌+◌, ◌≡◌, refl, Bool, true, false, String, none, some, List, [], ◌∷◌, ◌++◌, arith, length,
}
use doorboard.Sync.Queue.{
  QueueItem, UploadQueue, NewItem, completed, clip, enqueue, row_of, due_items,
  items_awaiting_license, iter_dead_letters, prune_completed,
}
use doorboard.Sync.Queue.Laws.{prune-forgets_nothing}
use doorboard.Door.Session.Recipients.{Text, has_key, strip}
use doorboard.Sync.Fence.{
  strip_slash, forbidden_roots, clean_roots, validate_roots, resolve_syncable,
}
use doorboard.Sync.Fence.Laws.{resolve_syncable-inside}
use doorboard.Sync.World.{World, commit, effect, returned, raised, transient_error, other_error}
use doorboard.Sync.Archive.{Settings, Attempt, copied, accepted, acknowledged, upload_and_verify}
use doorboard.Sync.Engine.{attempt, process_each, process_media, upload_media}
use doorboard.Sync.Enqueue.{recording_item, enqueue_media, enqueue_recording}
use doorboard.Sync.Reconcile.{Listed, reconcile_each, reconcile_from_media}
use doorboard.Sync.Engine.Safety.{IsSafe}
use doorboard.Sync.Engine.Loop.{Turn}
use doorboard.Sync.Target.{Answer, response, ingest_event}
use doorboard.Sync.Queue.{event}
use doorboard.Sync.Engine.History as History
use doorboard.Sync.Engine.History.{
  Happening, recorded, drained, pruned, served, restarted, start, run-IsSafe,
}
use doorboard.Sync.Engine.Backoff.{process_each-stops}

-- The defaults of `Settings`.
abbrev settings : Settings
settings = record {
  backoff_base = 2000;
  backoff_max = 300000;
  max_permanent_attempts = 5;
  completed_retention = 86400000;
}

-- Everything works, and the jitter is the least that it can be.
abbrev fine : Attempt
fine = record {
  now = 1000;
  inside_fence = true;
  exists = true;
  local_sha = some "sha";
  exists_for_upload = true;
  mounted = true;
  copy = copied;
  read_back = "sha";
  nuc = accepted;
  callback = acknowledged;
  uniform = λ lo hi. lo;
}

-- The share is not mounted.
abbrev unmounted : Attempt
unmounted = record fine { mounted = false }

abbrev recording : NewItem
recording = recording_item 7 "recordings/7.mp4" "sha" 9

abbrev turns : List Turn
turns =
    record { started_at = 40; drained_at = 41; pruned_at = 42 }
    ∷ record { started_at = 4000000; drained_at = 4000001; pruned_at = 4000002 }
    ∷ []

abbrev happenings : List Happening
happenings =
    recorded 10 recording 7
    ∷ drained 20
    ∷ restarted 3
    ∷ drained 30
    ∷ served turns
    ∷ pruned 90000000
    ∷ []

run-IsSafe_example : IsSafe (History.run settings (λ _. fine) happenings (start 4))
run-IsSafe_example = run-IsSafe settings (λ _. fine) happenings 4

abbrev waiting_item : QueueItem
waiting_item = row_of 10 recording

abbrev queue : UploadQueue
queue =
    waiting_item
    ∷ record (row_of 11 (recording_item 8 "recordings/8.mp4" "sha" 9)) {
      status = completed;
      licensed = true;
      completed_at = some 40;
    }
    ∷ []

prune-forgets_nothing_example :
    (due_items 50 none (prune_completed 60 queue).0 ≡ due_items 50 none queue)
    × (items_awaiting_license (prune_completed 60 queue).0 ≡ items_awaiting_license queue)
    × (iter_dead_letters (prune_completed 60 queue).0 ≡ iter_dead_letters queue)
    × (length queue ≡ length (prune_completed 60 queue).0 + (prune_completed 60 queue).1)
prune-forgets_nothing_example = prune-forgets_nothing 60 50 none queue

abbrev last_chance : QueueItem
last_chance = record waiting_item { permanent_failures = 4 }

abbrev world : World
world = record { queue = queue; log = []; left = 100; draws = 0 }

-- An item that has waited for the share for days.
abbrev tired : QueueItem
tired = record waiting_item { attempts = 1024 }

unmounted-attempt :
    attempt settings unmounted clip tired (record world { draws = 1 })
    ≡ (record world { draws = 1 }, raised (transient_error "NAS share not mounted"))
unfolding attempt process_media upload_media upload_and_verify
unmounted-attempt = refl

process_each-stops_example :
    process_each settings (λ _. unmounted) (tired ∷ waiting_item ∷ []) world ≡ (
      record world { draws = 1 },
      raised (other_error "OverflowError" "int too large to convert to float"),
    )
process_each-stops_example =
    process_each-stops settings (λ _. unmounted) tired (waiting_item ∷ []) world
      (transient_error "NAS share not mounted") (omega arith) unmounted-attempt

-- The root `/s`, the setting ` r/` and the path `r`.
abbrev data_root : List Text
data_root = (115 ∷ []) ∷ []

abbrev configured : List Text
configured = (32 ∷ 114 ∷ 47 ∷ []) ∷ []

abbrev syncable : List Text
syncable = (114 ∷ []) ∷ []

abbrev join : List Text → Text → List Text
join root rel_path = root ++ rel_path ∷ []

configured_roots : validate_roots configured ≡ some syncable
unfolding validate_roots clean_roots strip_slash strip
configured_roots = refl

let_through :
    resolve_syncable join (114 ∷ []) data_root syncable ≡ some ((115 ∷ []) ∷ (114 ∷ []) ∷ [])
unfolding resolve_syncable
let_through = refl

resolve_syncable-inside_example :
    (top : Text) × (rest : List Text) × (((115 ∷ []) ∷ (114 ∷ []) ∷ []) ≡ join data_root (114 ∷ []))
    × (((115 ∷ []) ∷ (114 ∷ []) ∷ []) ≡ data_root ++ top ∷ rest)
    × (has_key top syncable ≡ true)
    × (has_key top forbidden_roots ≡ false)
resolve_syncable-inside_example =
    resolve_syncable-inside join (114 ∷ []) data_root configured {names = syncable}
      {path = (115 ∷ []) ∷ (114 ∷ []) ∷ []} configured_roots let_through

-- A recording that has a row, a new one, and an entry without a checksum.
abbrev listed : List Listed
listed =
    record { recording_id = some 7; path = some "recordings/7.mp4"; sha256 = some "sha" }
    ∷ record { recording_id = some 9; path = some "recordings/9.mp4"; sha256 = some "sha" }
    ∷ record { recording_id = some 11; path = some "recordings/11.mp4"; sha256 = none }
    ∷ []

abbrev anywhere : String → Bool
anywhere path = true

one_more : (reconcile_from_media anywhere 50 (λ n. n) (some listed) world).1 ≡ returned 1
unfolding reconcile_from_media reconcile_each enqueue_recording enqueue_media enqueue commit effect
one_more = refl

-- The control plane refuses the token.
abbrev refusal : Answer
refusal = response record { status_code = 401; body_text = "expired"; results = none }

abbrev refused : Attempt
refused = record fine { nuc = ingest_event true refusal }

abbrev doorbell : QueueItem
doorbell = record waiting_item {
  item_id = 12;
  kind = event;
  payload = some "{}";
  permanent_failures = 4;
}

abbrev waiting_world : World
waiting_world = record world { queue = doorbell ∷ [] }
