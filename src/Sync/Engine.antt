-- ===== src/Sync/Engine.antt =====
-- The engine that drains the upload queue (apps/door-sync/src/door_sync/engine.py). Delays are
-- counted in milliseconds.
pub mod Safety
pub mod Statements
pub mod Updates
pub mod Finalize
pub mod Steps
pub mod Drain
pub mod Loop
pub mod Kept
pub mod History
pub mod Backoff
pub mod Outage
pub mod Lives
pub mod License
pub mod Success
use doorboard.Prelude.{
  ℕ, zero, suc, ◌+◌, ◌-◌, ◌*◌, ◌/◌, ◌^◌, min, String, Bool, true, false, ◌&&◌, not, Option, none,
  some, List, [], ◌∷◌, str_eq, get_or, is_some, ltb, if◌then◌else◌,
}
use doorboard.Sync.Queue.{
  ItemKind, clip, thumbnail, event, purge, unknown, ItemStatus, pending, completed, dead_letter,
  nas, nuc, QueueItem, NewItem, UploadQueue, is_media, is_clip, get, enqueue, due_items,
  items_awaiting_license, mark_completed, mark_licensed, Failure, record_failure, prune_completed,
}
use doorboard.Sync.World.{
  Effect, archived, notified, ingested, purged, upload_queued, upload_completed, upload_failed,
  Error, transient_error, permanent_error, other_error, Outcome, returned, raised, killed, World,
  Action, ◌>>=◌, ◌>>◌, give, fail_with, catching, effect, commit, read, draw,
}
use doorboard.Sync.Archive.{
  Settings, Attempt, Request, accepted, failed, Callback, acknowledged, lost_answer, unreachable,
  upload_and_verify,
}

-- The largest power of two that `backoff_base_s * (2**n)` can turn into a float is below this one.
abbrev pub float_bits : ℕ
float_bits = 1024

module _ (s : Settings) where
  abbrev pub capped : ℕ → ℕ
  capped n = min (s.backoff_base * 2 ^ n) s.backoff_max

  -- `_backoff_delay`: an integer from 2 ^ 1024 on is no float, and `OverflowError` is raised.
  unfoldable pub backoff_delay : Attempt → ℕ → Action ℕ
  backoff_delay a n =
      if ltb n float_bits
      then give (a.uniform (capped n / 2) (capped n))
      else fail_with (other_error "OverflowError" "int too large to convert to float")

  -- `type(exc).__name__`, `str(exc)` and `permanent` of the handlers in `process_item`.
  abbrev pub class_of : Error → String
  class_of (transient_error m) = "TransientError"
  class_of (permanent_error m) = "PermanentError"
  class_of (other_error c m) = c

  abbrev message_of : Error → String
  message_of (transient_error m) = m
  message_of (permanent_error m) = m
  message_of (other_error c m) = m

  abbrev pub is_permanent : Error → Bool
  is_permanent (permanent_error m) = true
  is_permanent _ = false

  abbrev pub failure_of : ℕ → Error → Failure
  failure_of next e = record {
    permanent = is_permanent e;
    next_attempt_at = next;
    error_class = class_of e;
    message = message_of e;
    max_permanent_attempts = s.max_permanent_attempts;
  }

  -- `emit_upload_failed`, for media only.
  unfoldable pub report_failure : Attempt → QueueItem → Error → ℕ → Action (Unit {0})
  report_failure a i e delay =
      if is_media i.kind
      then effect (upload_failed i.item_id (i.attempts + 1) (a.now + delay) (class_of e))
      else give tt

  -- `_on_failure`
  unfoldable pub on_failure : Attempt → QueueItem → Error → Action ItemStatus
  on_failure a i e = do
    delay ← backoff_delay a i.attempts
    status ← commit (record_failure a.now i.item_id (failure_of (a.now + delay) e))
    report_failure a i e delay
    give status

  -- `_emit_completed`
  abbrev pub emit_verified : QueueItem → Option String → Action (Unit {0})
  emit_verified i none = give tt
  emit_verified i (some sha) = effect (upload_completed i.item_id sha i.attempts)

  abbrev pub emit_row : Option QueueItem → Action (Unit {0})
  emit_row none = give tt
  emit_row (some i) = emit_verified i i.verified_sha256

  unfoldable pub emit_completed : ℕ → Action (Unit {0})
  emit_completed k = read (get k) >>= emit_row

  -- What follows the callback that has an answer.
  unfoldable pub after_notice : Attempt → ℕ → Action (Unit {0})
  after_notice a k = commit (λ q. (mark_licensed a.now k q, tt)) >> emit_completed k

  -- The callback, and what follows it.
  abbrev pub after_callback : Callback → Action (Unit {0}) → Action (Unit {0}) → Action (Unit {0})
  after_callback acknowledged notice next = notice >> next
  after_callback lost_answer notice next = notice
  after_callback unreachable notice next = give tt

  unfoldable pub notify : Attempt → QueueItem → ℕ → String → Action (Unit {0})
  notify a i recording sha =
      after_callback a.callback (effect (notified i.item_id recording sha i.attempts))
        (after_notice a i.item_id)

  -- `_finalize_license`; its `assert` is the last case.
  abbrev pub finalize_with : Attempt → QueueItem → Option ℕ → Option String → Action (Unit {0})
  finalize_with a i (some recording) (some sha) = notify a i recording sha
  finalize_with a i _ _ = fail_with (other_error "AssertionError" "")

  unfoldable pub finalize_license : Attempt → QueueItem → Action (Unit {0})
  finalize_license a i = finalize_with a i i.recording_id i.verified_sha256

  -- `self._finalize_license(self._require(item.item_id))`
  unfoldable pub finalize_row : Attempt → Option QueueItem → Action (Unit {0})
  finalize_row a none = fail_with (other_error "RuntimeError" "queue item vanished")
  finalize_row a (some i) = finalize_license a i

  -- What follows the upload of a clip, and of a thumbnail.
  unfoldable pub complete_clip : Attempt → QueueItem → String → Action ItemStatus
  complete_clip a i sha = do
    commit (λ q. (mark_completed a.now i.item_id (some sha) false q, tt))
    row ← read (get i.item_id)
    finalize_row a row
    give completed

  unfoldable pub complete_thumbnail : Attempt → QueueItem → String → Action ItemStatus
  complete_thumbnail a i sha = do
    commit (λ q. (mark_completed a.now i.item_id (some sha) true q, tt))
    emit_completed i.item_id
    give completed

  unfoldable pub complete_media : Attempt → QueueItem → String → Action ItemStatus
  complete_media a i sha =
      if is_clip i.kind then complete_clip a i sha else complete_thumbnail a i sha

  -- The checksum of the local file against the one that was declared.
  abbrev pub mismatch : Option String → String → Bool
  mismatch none sha = false
  mismatch (some e) sha = not (str_eq sha e)

  unfoldable pub upload_media : Attempt → QueueItem → String → Action ItemStatus
  upload_media a i sha =
      if mismatch i.expected_sha256 sha
      then fail_with (permanent_error "local checksum mismatch")
      else upload_and_verify a i.item_id i.dest_key (get_or i.expected_sha256 sha)
        >>= complete_media a i

  abbrev pub upload_local : Attempt → QueueItem → Option String → Action ItemStatus
  upload_local a i none = fail_with (other_error "OSError" "")
  upload_local a i (some sha) = upload_media a i sha

  -- `_process_media`
  unfoldable pub process_media : Attempt → QueueItem → Action ItemStatus
  process_media a i =
      if not (is_some i.local_path)
      then fail_with (other_error "AssertionError" "")
      else if not a.inside_fence
      then fail_with (other_error "FenceViolation" "")
      else if not a.exists
      then fail_with (permanent_error "local media missing")
      else upload_local a i a.local_sha

  unfoldable pub complete_request : Attempt → QueueItem → Action ItemStatus
  complete_request a i = do
    commit (λ q. (mark_completed a.now i.item_id none true q, tt))
    give completed

  -- A request to the control plane, and the completion of its item.
  abbrev pub after_request : Request → Action ItemStatus → Action ItemStatus
  after_request (failed x) next = fail_with x
  after_request accepted next = next

  unfoldable pub send : Attempt → QueueItem → Effect → Action ItemStatus
  send a i e = after_request a.nuc (effect e >> complete_request a i)

  unfoldable pub attempt : Attempt → ItemKind → QueueItem → Action ItemStatus
  attempt a clip i = process_media a i
  attempt a thumbnail i = process_media a i
  attempt a event i = send a i (ingested i.item_id (get_or i.payload ""))
  attempt a purge i = send a i (purged i.item_id (get_or i.payload ""))
  attempt a unknown i = fail_with (permanent_error "unknown item kind")

  -- `process_item`
  unfoldable pub process_item : Attempt → QueueItem → Action ItemStatus
  process_item a i = catching (on_failure a i) (attempt a i.kind i)

  module _ (env : ℕ → Attempt) where
    -- `finalize_licenses`
    unfoldable pub finalize_each : List QueueItem → Action ℕ
    finalize_each [] = give 0
    finalize_each (i ∷ is) = do
      a ← draw env
      finalize_license a i
      row ← read (get i.item_id)
      n ← finalize_each is
      give (elim row [ none ↦ n | some r ↦ if r.licensed then n + 1 else n ])

    unfoldable pub finalize_licenses : Action ℕ
    finalize_licenses = read items_awaiting_license >>= finalize_each

    unfoldable pub process_each : List QueueItem → Action ℕ
    process_each [] = give 0
    process_each (i ∷ is) = do a ← draw env; _ ← process_item a i; n ← process_each is; give (n + 1)

    -- `run_once`, at the time `now`.
    unfoldable pub run_once : ℕ → Action ℕ
    run_once now = do _ ← finalize_licenses; items ← read (due_items now none); process_each items

  -- `prune`
  unfoldable pub prune : ℕ → Action ℕ
  prune now = commit (prune_completed (now - s.completed_retention))
