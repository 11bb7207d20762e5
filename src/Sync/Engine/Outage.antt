-- ===== src/Sync/Engine/Outage.antt =====
-- What an outage of the control plane does to its items (`process_item` of
-- apps/door-sync/src/door_sync/engine.py with `HttpNucTarget` of targets.py).
use doorboard.Prelude.{
  ◌||◌, ◌==◌, leb, List, [], ◌∷◌, ℕ, ◌+◌, ◌/◌, ◌≡◌, ◌⊎◌, Bool, true, false, String,
}
use doorboard.Sync.Queue.{QueueItem, event, purge, Failure}
use doorboard.Sync.World.{World, transient_error}
use doorboard.Sync.Archive.{Settings, Attempt, Request}
use doorboard.Sync.Target.{Answer, transport_error, response, ingest_event, purge_person}
use doorboard.Sync.Engine.{capped, failure_of}

abbrev pub listed : ℕ → List ℕ → Bool
listed n [] = false
listed n (m ∷ ms) = n == m || listed n ms

-- No connection, an error of the server, a token that is refused, a timeout, or too many requests.
abbrev pub is_outage : Answer → Bool
is_outage (transport_error m) = true
is_outage (response r) = leb 500 r.status_code || listed r.status_code (401 ∷ 403 ∷ 408 ∷ 429 ∷ [])

abbrev pub IsAsked : QueueItem → Request → Answer → Type 0
IsAsked i r answer =
    ((i.kind ≡ event) × (r ≡ ingest_event true answer))
    ⊎ ((i.kind ≡ purge) × (r ≡ purge_person answer))

module _ (st : Settings) (a : Attempt) (i : QueueItem) (w : World) where
  -- The failure that a transient error is recorded as, with its delay.
  abbrev transient : String → Failure
  transient m =
      failure_of st (a.now + a.uniform (capped st i.attempts / 2) (capped st i.attempts))
        (transient_error m)
