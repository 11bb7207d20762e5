-- ===== src/Sync/Engine/History.antt =====
-- Everything that can happen to the upload queue, in any order and with the process killed at any
-- instant (apps/door-sync/src/door_sync/engine.py).
use doorboard.Prelude.{
  ℕ, suc, ◌≡◌, refl, String, Bool, false, inl, inr, Bool-cases, Option, none, some, List, [], ◌∷◌,
  ◌++◌, length, All-append, is_some, if◌then◌else◌,
}
use doorboard.Sync.Queue.{NewItem, is_clip, get, row_of, enqueue}
use doorboard.Sync.Queue.Rows.{Unique-append}
use doorboard.Sync.World.{World, give, commit}
use doorboard.Sync.Archive.{Settings, Attempt}
use doorboard.Sync.Engine.{run_once, prune}
use doorboard.Sync.Enqueue.{enqueue_media, enqueue_recording, recording_item}
use doorboard.Sync.Reconcile.{Listed, reconcile_entry, reconcile_each, reconcile_from_media}
use doorboard.Sync.Engine.Safety.{
  Verified, Told, IsSafe, gives, Runs-after, Runs-if, Nothing, forget,
}
use doorboard.Sync.Engine.Statements.{effect-Runs}
use doorboard.Sync.Engine.Loop.{Turn, serve}
use doorboard.Sync.Engine.Kept.{
  Safe-after, commit-IsSafe, prune-IsSafe, handled-IsSafe, serve-IsSafe,
}
use doorboard.Sync.Engine.Drain.{run_once-Runs}

-- `restart` is a new process, which has so many effects and commits before it is killed.
pub data Happening : Type 0 where
  enqueued : (now : ℕ) (item : NewItem) → Happening
  recorded : (now : ℕ) (item : NewItem) (recording : ℕ) → Happening
  drained : (now : ℕ) → Happening
  pruned : (now : ℕ) → Happening
  served : List Turn → Happening
  reconciled :
      (allowed : String → Bool) (now : ℕ) (trace : ℕ → ℕ) → Option (List Listed) → Happening
  restarted : (left : ℕ) → Happening

-- An empty queue.
abbrev pub start : ℕ → World
start left = record { queue = []; log = []; left = left; draws = 0 }

module _ (st : Settings) (env : ℕ → Attempt) where
  unfoldable pub happen : Happening → World → World
  happen (enqueued now i) w = (commit (enqueue now i) w).0
  happen (recorded now i recording) w = (enqueue_media now i recording w).0
  happen (drained now) w = (run_once st env now w).0
  happen (pruned now) w = (prune st now w).0
  happen (served ts) w = (serve st env ts w).0
  happen (reconciled allowed now trace list) w = (reconcile_from_media allowed now trace list w).0
  happen (restarted n) w = record w { left = n }

  unfoldable pub run : List Happening → World → World
  run [] w = w
  run (h ∷ hs) w = run hs (happen h w)

unlicensed_row : (now : ℕ) (i : NewItem) (w : World) → Told w.log (row_of now i)
unlicensed_row now i w = elim (Bool-cases (is_clip i.kind)) [ inl e ↦ rw e tt | inr e ↦ rw e tt ]

-- A row that is new has nothing to show.
new_row-IsSafe :
    (now : ℕ) (i : NewItem) (w : World)
    → IsSafe w
    → is_some (get i.item_id w.queue) ≡ false
    → IsSafe (record w { queue = w.queue ++ row_of now i ∷ [] })
new_row-IsSafe now i w s h = record {
  unique = Unique-append w.queue (row_of now i) s.unique h;
  verified = All-append (Verified w.log) w.queue (row_of now i ∷ []) s.verified (refl, tt);
  told = All-append (Told w.log) w.queue (row_of now i ∷ []) s.told (unlicensed_row now i w, tt);
  founded = s.founded;
}

same-IsSafe : (w : World) → IsSafe w → IsSafe (record w { queue = w.queue })
same-IsSafe w s = record {
  unique = s.unique;
  verified = s.verified;
  told = s.told;
  founded = s.founded;
}

enqueue-IsSafe :
    (now : ℕ) (i : NewItem) (w : World) → IsSafe w → IsSafe (commit (enqueue now i) w).0
unfolding enqueue
enqueue-IsSafe now i w s = elim (Bool-cases (is_some (get i.item_id w.queue))) [
  | inl e ↦ commit-IsSafe _ w s (rw e (same-IsSafe w s))
  | inr e ↦ commit-IsSafe _ w s (rw e (new_row-IsSafe now i w s e))
]

enqueue_media-IsSafe :
    (now : ℕ) (i : NewItem) (recording : ℕ) (w : World)
    → IsSafe w
    → IsSafe (enqueue_media now i recording w).0
unfolding enqueue_media
enqueue_media-IsSafe now i recording w s =
    Safe-after (commit (enqueue now i) w) _ (enqueue-IsSafe now i w s) (λ newly w' s'.
      (Runs-after w' _ _ Nothing _
        (Runs-if newly _ _ w' Nothing (forget (effect-Runs _ w' s' tt)) (gives w' tt _ s' tt))
        (λ _ w2 s2 _ _. gives w2 newly Nothing s2 tt)).safe)

module _ (allowed : String → Bool) (now : ℕ) (trace : ℕ → ℕ) where
  entry-IsSafe :
      (t : ℕ) (rid : Option ℕ) (path sha : Option String) (w : World)
      → IsSafe w
      → IsSafe (reconcile_entry allowed now t rid path sha w).0
  unfolding enqueue_recording
  entry-IsSafe t (some rid) (some path) (some sha) w s = elim (Bool-cases (allowed path)) [
    | inl e ↦ rw e (
        handled-IsSafe (λ e. give false) (enqueue_media now (recording_item rid path sha t) rid w)
          (enqueue_media-IsSafe now (recording_item rid path sha t) rid w s) (λ e v k. k))
    | inr e ↦ rw e s
  ]
  entry-IsSafe t none path sha w s = s
  entry-IsSafe t (some rid) none sha w s = s
  entry-IsSafe t (some rid) (some path) none w s = s

  each-IsSafe :
      (rs : List Listed) (added : ℕ) (w : World)
      → IsSafe w
      → IsSafe (reconcile_each allowed now trace rs added w).0
  unfolding reconcile_each
  each-IsSafe [] added w s = s
  each-IsSafe (r ∷ rs) added w s =
      Safe-after (reconcile_entry allowed now (trace (length rs)) r.recording_id r.path r.sha256 w)
        (λ newly. reconcile_each allowed now trace rs (if newly then suc added else added))
        (entry-IsSafe (trace (length rs)) r.recording_id r.path r.sha256 w s)
        (λ b v k. each-IsSafe rs (if b then suc added else added) v k)

  reconcile-IsSafe :
      (list : Option (List Listed)) (w : World)
      → IsSafe w
      → IsSafe (reconcile_from_media allowed now trace list w).0
  unfolding reconcile_from_media
  reconcile-IsSafe none w s = s
  reconcile-IsSafe (some rs) w s = each-IsSafe rs 0 w s

module _ (st : Settings) (env : ℕ → Attempt) where
  happen-IsSafe : (h : Happening) (w : World) → IsSafe w → IsSafe (happen st env h w)
  unfolding happen
  happen-IsSafe (enqueued now i) w s = enqueue-IsSafe now i w s
  happen-IsSafe (recorded now i recording) w s = enqueue_media-IsSafe now i recording w s
  happen-IsSafe (drained now) w s = (run_once-Runs st env now w s).safe
  happen-IsSafe (pruned now) w s = prune-IsSafe st now w s
  happen-IsSafe (served ts) w s = serve-IsSafe st env ts w s
  happen-IsSafe (reconciled allowed now trace list) w s =
      reconcile-IsSafe allowed now trace list w s
  happen-IsSafe (restarted n) w s = record {
    unique = s.unique;
    verified = s.verified;
    told = s.told;
    founded = s.founded;
  }

  run_from-IsSafe : (hs : List Happening) (w : World) → IsSafe w → IsSafe (run st env hs w)
  unfolding run
  run_from-IsSafe [] w s = s
  run_from-IsSafe (h ∷ hs) w s = run_from-IsSafe hs (happen st env h w) (happen-IsSafe h w s)

  -- From an empty queue, whatever is enqueued, reconciled, drained and pruned, by calls or by the drain
  -- loop, whatever the archive, the control plane and door-media answer, and at whatever effect or commit the process is killed and
  -- started again: door-media is told that it may delete a clip only after a copy of this clip,
  -- read back with the same checksum, is in the archive; a clip or thumbnail is completed only with
  -- a checksum that is archived under its key and is the declared one; a licensed clip has been
  -- reported to door-media; and no two rows share an id.
  pub run-IsSafe : (hs : List Happening) (left : ℕ) → IsSafe (run st env hs (start left))
  run-IsSafe hs left =
      run_from-IsSafe hs (start left)
        (record { unique = tt; verified = tt; told = tt; founded = tt })
