-- ===== src/Sync/Engine/Steps.antt =====
-- Each function of the sync engine keeps a run safe (apps/door-sync/src/door_sync/engine.py).
use doorboard.Prelude.{
  ℕ, ◌+◌, ◌≡◌, refl, sym, true, false, not, inl, inr, Bool-cases, Option, none, some, List, String,
  arith, str_eq, get_or, is_some, ltb,
}
use doorboard.Sync.Queue.{
  QueueItem, is_media, ItemKind, clip, thumbnail, event, purge, unknown, completed,
}
use doorboard.Sync.Queue.Rows.{Matches}
use doorboard.Sync.World.{Effect, archived, ingested, purged, Error, World, ◌>>◌, effect, Occurs}
use doorboard.Sync.Archive.{
  Settings, Attempt, Copy, copied, file_not_found, os_error, Request, accepted, failed, verify_copy,
  upload_and_verify,
}
use doorboard.Sync.Engine.{
  backoff_delay, float_bits, failure_of, on_failure, after_request, upload_local, report_failure,
  mismatch, upload_media, process_media, complete_request, send, attempt, process_item,
}
use doorboard.Sync.Engine.Safety.{
  Declared, Founded, IsSafe, Runs, gives, raises, Runs-after, Runs-if, Nothing, forget,
  Runs-handled,
}
use doorboard.Sync.Engine.Updates.{mark_completed-Runs, record_failure-Runs}
use doorboard.Sync.Engine.Statements.{effect-Runs}
use doorboard.Sync.Engine.Finalize.{complete_media-Runs}

-- A checksum that the upload gives is the expected one, and archived.
abbrev pub IsArchived : QueueItem → String → String → World → Type 0
IsArchived i expected sha w = (sha ≡ expected) × Occurs (archived i.item_id i.dest_key sha) w.log

verify_copy-Runs :
    (c : Copy) (read_back : String) (i : QueueItem) (expected : String) (w : World)
    → IsSafe w
    → Runs w (verify_copy c read_back i.item_id i.dest_key expected w) (IsArchived i expected)
verify_copy-Runs file_not_found read_back i expected w s = raises w _ _ s
verify_copy-Runs (os_error m) read_back i expected w s = raises w _ _ s
verify_copy-Runs copied read_back i expected w s = elim (Bool-cases (str_eq read_back expected)) [
  | inr e ↦ rw e (raises w _ _ s)
  | inl e ↦ rw e (
      Runs-after w _ _ (IsArchived i expected) _
        (effect-Runs (archived i.item_id i.dest_key expected) w s tt)
        (λ _ w' s' l o. gives w' expected _ s' (refl, o)))
]

pub upload_and_verify-Runs :
    (a : Attempt) (i : QueueItem) (expected : String) (w : World)
    → IsSafe w
    → Runs w (upload_and_verify a i.item_id i.dest_key expected w) (IsArchived i expected)
unfolding upload_and_verify
upload_and_verify-Runs a i expected w s =
    Runs-if (not a.exists_for_upload) _ _ w _ (raises w _ _ s) (
      Runs-if (not a.mounted) _ _ w _ (raises w _ _ s)
        (verify_copy-Runs a.copy a.read_back i expected w s))

module _ (st : Settings) where
  -- The checksum that is expected is the declared one.
  expected-Declared :
      (declared : Option String) (sha sha' : String)
      → sha' ≡ get_or declared sha
      → Declared declared sha'
  expected-Declared none sha sha' e = tt
  expected-Declared (some d) sha sha' e = sym e

  upload_media-Runs :
      (a : Attempt) (i : QueueItem) (sha : String) (w : World)
      → IsSafe w
      → Matches w.queue i
      → Runs w (upload_media st a i sha w) Nothing
  unfolding upload_media
  upload_media-Runs a i sha w s m = elim (Bool-cases (mismatch st i.expected_sha256 sha)) [
    | inl e ↦ rw e (raises w _ _ s)
    | inr e ↦ rw e (
        Runs-after w _ _ Nothing _ (upload_and_verify-Runs a i (get_or i.expected_sha256 sha) w s)
          (λ sha' w' s' l q.
            complete_media-Runs st a i sha' w' s' (l.matches i m) q.1
              (expected-Declared i.expected_sha256 sha sha' q.0)))
  ]

  upload_local-Runs :
      (a : Attempt) (i : QueueItem) (o : Option String) (w : World)
      → IsSafe w
      → Matches w.queue i
      → Runs w (upload_local st a i o w) Nothing
  upload_local-Runs a i none w s m = raises w _ _ s
  upload_local-Runs a i (some sha) w s m = upload_media-Runs a i sha w s m

  process_media-Runs :
      (a : Attempt) (i : QueueItem) (w : World)
      → IsSafe w
      → Matches w.queue i
      → Runs w (process_media st a i w) Nothing
  unfolding process_media
  process_media-Runs a i w s m = Runs-if (not (is_some i.local_path)) _ _ w _ (raises w _ _ s) (
      Runs-if (not a.inside_fence) _ _ w _ (raises w _ _ s)
        (Runs-if (not a.exists) _ _ w _ (raises w _ _ s) (upload_local-Runs a i a.local_sha w s m)))

  -- A request whose item is no media item.
  request-Runs :
      (r : Request) (a : Attempt) (i : QueueItem) (e : Effect) (w : World)
      → IsSafe w
      → Matches w.queue i
      → is_media i.kind ≡ false
      → ((log : List Effect) → Founded e log)
      → Runs w (after_request st r (effect e >> complete_request st a i) w) Nothing
  unfolding complete_request
  request-Runs (failed x) a i e w s m k f = raises w _ _ s
  request-Runs accepted a i e w s m k f =
      Runs-after w _ _ Nothing _ (effect-Runs e w s (f w.log)) (λ _ w' s' l q.
        Runs-after w' _ _ Nothing _
          (mark_completed-Runs a.now i none true w' s' (l.matches i m) (k, ground arith))
          (λ _ w2 s2 _ _. gives w2 completed _ s2 tt))

  attempt-Runs :
      (a : Attempt) (k : ItemKind) (i : QueueItem) (w : World)
      → i.kind ≡ k
      → IsSafe w
      → Matches w.queue i
      → Runs w (attempt st a k i w) Nothing
  unfolding attempt send
  attempt-Runs a clip i w e s m = process_media-Runs a i w s m
  attempt-Runs a thumbnail i w e s m = process_media-Runs a i w s m
  attempt-Runs a event i w e s m =
      request-Runs a.nuc a i (ingested i.item_id (get_or i.payload "")) w s m (rw e refl) (λ _. tt)
  attempt-Runs a purge i w e s m =
      request-Runs a.nuc a i (purged i.item_id (get_or i.payload "")) w s m (rw e refl) (λ _. tt)
  attempt-Runs a unknown i w e s m = raises w _ _ s

  backoff_delay-Runs :
      (a : Attempt) (n : ℕ) (w : World) → IsSafe w → Runs w (backoff_delay st a n w) Nothing
  unfolding backoff_delay
  backoff_delay-Runs a n w s =
      Runs-if (ltb n float_bits) _ _ w _ (gives w _ _ s tt) (raises w _ _ s)

  report_failure-Runs :
      (a : Attempt) (i : QueueItem) (e : Error) (d : ℕ) (w : World)
      → IsSafe w
      → Runs w (report_failure st a i e d w) Nothing
  unfolding report_failure
  report_failure-Runs a i e d w s =
      Runs-if (is_media i.kind) _ _ w _ (forget (effect-Runs _ w s tt)) (gives w tt _ s tt)

  on_failure-Runs :
      (a : Attempt) (i : QueueItem) (e : Error) (w : World)
      → IsSafe w
      → Matches w.queue i
      → Runs w (on_failure st a i e w) Nothing
  unfolding on_failure
  on_failure-Runs a i e w s m =
      Runs-after w _ _ Nothing _ (backoff_delay-Runs a i.attempts w s) (λ d w' s' l _.
        Runs-after w' _ _ Nothing _
          (record_failure-Runs a.now i (failure_of st (a.now + d) e) w' s' (l.matches i m))
          (λ status w2 s2 _ _.
            Runs-after w2 _ _ Nothing _ (report_failure-Runs a i e d w2 s2)
              (λ _ w3 s3 _ _. gives w3 status _ s3 tt)))

  pub process_item-Runs :
      (a : Attempt) (i : QueueItem) (w : World)
      → IsSafe w
      → Matches w.queue i
      → Runs w (process_item st a i w) Nothing
  unfolding process_item
  process_item-Runs a i w s m =
      Runs-handled w (on_failure st a i) (attempt st a i.kind i w)
        (attempt-Runs a i.kind i w refl s m)
        (λ e w' s' l. on_failure-Runs a i e w' s' (l.matches i m))
