-- ===== src/Sync/Archive.antt =====
-- The archive on a mounted share (apps/door-sync/src/door_sync/targets.py), and what the world
-- answers to one attempt of the sync engine.
use doorboard.Prelude.{ℕ, String, Bool, not, Option, str_eq, if◌then◌else◌}
use doorboard.Sync.World.{
  archived, Error, transient_error, permanent_error, Action, ◌>>◌, give, fail_with, effect,
}

-- `Settings`, where the engine reads it.
pub record Settings : Type 0 where
  pub backoff_base : ℕ
  pub backoff_max : ℕ
  pub max_permanent_attempts : ℕ
  pub completed_retention : ℕ

-- How a copy to the share ends: `FileNotFoundError` and any other `OSError` apart.
pub data Copy : Type 0 where
  copied file_not_found : Copy
  os_error : (message : String) → Copy

-- How a request ends.
pub data Request : Type 0 where
  accepted : Request
  failed : Error → Request

-- How the callback to door-media ends; an answer that is lost is an exception for the caller.
pub data Callback : Type 0 where
  acknowledged lost_answer unreachable : Callback

-- What the world answers to one attempt on an item.
pub record Attempt : Type 0 where
  pub now : ℕ
  pub inside_fence : Bool
  pub exists : Bool
  pub local_sha : Option String
  pub exists_for_upload : Bool
  pub mounted : Bool
  pub copy : Copy
  pub read_back : String
  pub nuc : Request
  pub callback : Callback
  pub uniform : ℕ → ℕ → ℕ

-- The verified read-back from the far side.
abbrev pub verify : String → ℕ → String → String → Action String
verify read_back item key expected =
    if str_eq read_back expected
    then effect (archived item key expected) >> give expected
    else fail_with (permanent_error "far-side checksum mismatch")

abbrev pub verify_copy : Copy → String → ℕ → String → String → Action String
verify_copy file_not_found read_back item key expected =
    fail_with (permanent_error "file not found")
verify_copy (os_error m) read_back item key expected = fail_with (transient_error m)
verify_copy copied read_back item key expected = verify read_back item key expected

-- `FilesystemNasTarget._upload_and_verify_sync`
unfoldable pub upload_and_verify : Attempt → ℕ → String → String → Action String
upload_and_verify a item key expected =
    if not a.exists_for_upload
    then fail_with (permanent_error "local media missing")
    else if not a.mounted
    then fail_with (transient_error "NAS share not mounted")
    else verify_copy a.copy a.read_back item key expected
