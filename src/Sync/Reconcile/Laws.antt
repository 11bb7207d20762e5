-- ===== src/Sync/Reconcile/Laws.antt =====
-- Nothing that door-media lists is missed (`reconcile_from_media` of
-- apps/door-sync/src/door_sync/engine.py).
use doorboard.Prelude.{
  ℕ, ◌+◌, ◌≡◌, String, Bool, true, false, Option, none, some, is_some, List, ◌++◌, All, length,
  if◌then◌else◌,
}
use doorboard.Sync.Queue.{UploadQueue, get}
use doorboard.Sync.World.{
  Effect, Outcome, returned, raised, killed, World, after, give, spend, effect,
}
use doorboard.Sync.Reconcile.{Listed}

-- The recording of an entry that is complete and whose path the fence lets through.
abbrev pub wanted_of : (String → Bool) → Option ℕ → Option String → Option String → Option ℕ
wanted_of allowed (some recording) (some path) (some sha) =
    if allowed path then some recording else none
wanted_of allowed _ _ _ = none

abbrev pub wanted : (String → Bool) → Listed → Option ℕ
wanted allowed r = wanted_of allowed r.recording_id r.path r.sha256

abbrev pub IsQueued : UploadQueue → Option ℕ → Type 0
IsQueued q none = Unit
IsQueued q (some k) = is_some (get k q) ≡ true

-- The queue is the earlier one with `n` rows behind it.
pub record Grown (before behind : UploadQueue) (n : ℕ) : Type 0 where
  pub new : UploadQueue
  pub grown : behind ≡ before ++ new
  pub count : length new ≡ n

-- What is left of a reconciliation that began in `w` with `added` rows counted.
abbrev pub Reconciled : (String → Bool) → List Listed → World → ℕ → World × Outcome ℕ → Type 0
Reconciled allowed rs w added (w', returned n) =
    (k : ℕ) × (n ≡ added + k)
    × Grown w.queue w'.queue k
    × All (λ r. IsQueued w'.queue (wanted allowed r)) rs
Reconciled allowed rs w added (w', raised e) = true ≡ false
Reconciled allowed rs w added (w', killed) = (k : ℕ) × Grown w.queue w'.queue k

Entered : Option ℕ → World → World × Outcome Bool → Type 0
Entered o w (w', returned b) = Grown w.queue w'.queue (if b then 1 else 0) × IsQueued w'.queue o
Entered o w (w', raised e) = true ≡ false
Entered o w (w', killed) = (k : ℕ) × Grown w.queue w'.queue k

-- What `enqueue` makes of a queue.
Added : ℕ → UploadQueue → UploadQueue × Bool → Type 0
Added k q (r, b) = Grown q r (if b then 1 else 0) × (is_some (get k r) ≡ true)

module _ (e : Effect) where
  -- The commit and the event, where the transaction makes `o` of the queue.
  stepped : ℕ → UploadQueue × Bool → World → World × Outcome Bool
  stepped n o w =
      after (spend n w (λ k. record w { queue = o.0; left = k }) o.1)
        (λ newly q. after ((if newly then effect e else give tt) q) (λ _. give newly))
