-- ===== src/Sync/Reconcile.antt =====
-- The net under the real-time events: clips that door-media still lists (`reconcile_from_media` of
-- apps/door-sync/src/door_sync/engine.py). The fence's verdict on a path and the list are arguments;
-- a field of an entry that is missing or empty is `none`.
pub mod Laws
use doorboard.Prelude.{
  ℕ, suc, String, Bool, true, false, Option, none, some, List, [], ◌∷◌, length, if◌then◌else◌,
}
use doorboard.Sync.World.{Error, other_error, Action, ◌>>=◌, give, fail_with, catching}
use doorboard.Sync.Enqueue.{enqueue_recording}

pub record Listed : Type 0 where
  pub recording_id : Option ℕ
  pub path : Option String
  pub sha256 : Option String

-- `enqueue_recording` with the fence at its start.
abbrev pub enqueue_fenced : (String → Bool) → ℕ → ℕ → ℕ → String → String → Action Bool
enqueue_fenced allowed now trace recording path sha =
    if allowed path
    then enqueue_recording now recording path sha trace
    else fail_with (other_error "FenceViolation" path)

-- An entry that is not complete is passed over, and so is one whose enqueueing raises.
abbrev pub reconcile_entry :
    (String → Bool) → ℕ → ℕ → Option ℕ → Option String → Option String → Action Bool
reconcile_entry allowed now trace (some recording) (some path) (some sha) =
    catching (λ e. give false) (enqueue_fenced allowed now trace recording path sha)
reconcile_entry allowed now trace _ _ _ = give false

unfoldable pub reconcile_each : (String → Bool) → ℕ → (ℕ → ℕ) → List Listed → ℕ → Action ℕ
reconcile_each allowed now trace [] added = give added
reconcile_each allowed now trace (r ∷ rs) added =
    reconcile_entry allowed now (trace (length rs)) r.recording_id r.path r.sha256 >>= λ newly.
    reconcile_each allowed now trace rs (if newly then suc added else added)

-- `list` is `none` where door-media cannot be reached.
unfoldable pub reconcile_from_media :
    (String → Bool) → ℕ → (ℕ → ℕ) → Option (List Listed) → Action ℕ
reconcile_from_media allowed now trace none = give 0
reconcile_from_media allowed now trace (some rs) = reconcile_each allowed now trace rs 0
