-- ===== src/Sync/Target.antt =====
-- The requests to the control plane (`HttpNucTarget` of
-- apps/door-sync/src/door_sync/targets.py). How a request ends is an argument. The message of an
-- error is the text of the answer; the source puts the status before it.
use doorboard.Prelude.{
  ℕ, String, Bool, true, false, ◌||◌, ltb, leb, ◌==◌, Option, none, some, List, [], ◌∷◌, str_eq,
  if◌then◌else◌,
}
use doorboard.Sync.World.{transient_error, permanent_error, other_error}
use doorboard.Sync.Archive.{Request, accepted, failed}

-- An entry of `results`.
pub record Result : Type 0 where
  pub status : String
  pub error : String

-- `results` is `none` where the body is no JSON, and empty where the key is missing.
pub record Response : Type 0 where
  pub status_code : ℕ
  pub body_text : String
  pub results : Option (List Result)

-- `httpx.HTTPError`, or a response.
pub data Answer : Type 0 where
  transport_error : (message : String) → Answer
  response : Response → Answer

abbrev pub is_transient : ℕ → Bool
is_transient n = leb 500 n || n == 401 || n == 403 || n == 408 || n == 429

-- `_raise_for_status`
abbrev pub raise_for_status : Response → Request
raise_for_status r =
    if ltb r.status_code 400
    then accepted
    else if is_transient r.status_code
    then failed (transient_error r.body_text)
    else failed (permanent_error r.body_text)

-- The result of a batch of one.
abbrev pub inspect : Option (List Result) → Request
inspect none = failed (other_error "JSONDecodeError" "")
inspect (some []) = accepted
inspect (some (r ∷ rs)) =
    if str_eq r.status "rejected" then failed (permanent_error r.error) else accepted

abbrev pub and_then : Request → Request → Request
and_then accepted next = next
and_then (failed e) next = failed e

-- `decodes`: whether the stored payload is JSON.
unfoldable pub ingest_event : (decodes : Bool) → Answer → Request
ingest_event false answer = failed (other_error "JSONDecodeError" "")
ingest_event true (transport_error m) = failed (transient_error m)
ingest_event true (response r) = and_then (raise_for_status r) (inspect r.results)

unfoldable pub purge_person : Answer → Request
purge_person (transport_error m) = failed (transient_error m)
purge_person (response r) = raise_for_status r
