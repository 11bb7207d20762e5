-- ===== src/Sync/Engine/Loop.antt =====
-- The drain loop (`run` of apps/door-sync/src/door_sync/engine.py). A loop that is stopped has made
-- a list of turns, each with the times that it reads.
use doorboard.Prelude.{ℕ, ◌+◌, ltb, List, [], ◌∷◌, if◌then◌else◌}
use doorboard.Sync.World.{Action, ◌>>=◌, give, catching}
use doorboard.Sync.Archive.{Settings, Attempt}
use doorboard.Sync.Engine.{run_once, finalize_licenses, prune}

-- When a turn reads the clock: in `run_once`, after it, and in `prune`.
pub record Turn : Type 0 where
  pub started_at : ℕ
  pub drained_at : ℕ
  pub pruned_at : ℕ

-- An hour, in milliseconds.
abbrev pub prune_interval : ℕ
prune_interval = 3600000

module _ (st : Settings) (env : ℕ → Attempt) where
  -- What follows the drain, with the time of the last pruning.
  abbrev pub prune_if_old : Turn → ℕ → Action ℕ
  prune_if_old t last =
      if ltb (last + prune_interval) t.drained_at
      then (prune st t.pruned_at >>= λ n. give t.drained_at)
      else give last

  -- One turn; an exception is logged, and the loop goes on.
  unfoldable pub turn : Turn → ℕ → Action ℕ
  turn t last =
      catching (λ e. give last) (run_once st env t.started_at >>= λ n. prune_if_old t last)

  unfoldable pub turns : List Turn → ℕ → Action ℕ
  turns [] last = give last
  turns (t ∷ ts) last = turn t last >>= turns ts

  -- `run`
  unfoldable pub serve : List Turn → Action ℕ
  serve ts = finalize_licenses st env >>= λ n. turns ts 0
