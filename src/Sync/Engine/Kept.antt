-- ===== src/Sync/Engine/Kept.antt =====
-- What is safe stays safe through sequences, handlers, commits and the drain loop
-- (apps/door-sync/src/door_sync/engine.py).
use doorboard.Prelude.{ℕ, zero, suc, ◌+◌, ltb, inl, inr, Bool-cases, List, [], ◌∷◌}
use doorboard.Sync.Queue.{UploadQueue, prune_completed}
use doorboard.Sync.Queue.Rows.{Unique-select, All-select}
use doorboard.Sync.World.{
  Error, Outcome, returned, raised, killed, World, Action, after, handled, give, spend, commit,
}
use doorboard.Sync.Archive.{Settings, Attempt}
use doorboard.Sync.Engine.{prune, run_once}
use doorboard.Sync.Engine.Loop.{Turn, prune_interval, prune_if_old, turn, turns, serve}
use doorboard.Sync.Engine.Safety.{Verified, Told, IsSafe}
use doorboard.Sync.Engine.Drain.{finalize_licenses-Runs, run_once-Runs}

pub Safe-after :
    {A B : Type 0} (x : World × Outcome A) (f : A → Action B)
    → IsSafe x.0
    → ((a : A) (w : World) → IsSafe w → IsSafe (f a w).0)
    → IsSafe (after x f).0
Safe-after (w, returned a) f s next = next a w s
Safe-after (w, raised e) f s next = s
Safe-after (w, killed) f s next = s

spend-IsSafe :
    {A : Type 0} (n : ℕ) (w : World) (next : ℕ → World) (a : A)
    → IsSafe w
    → ((k : ℕ) → IsSafe (next k))
    → IsSafe (spend n w next a).0
spend-IsSafe zero w next a s h = s
spend-IsSafe (suc n) w next a s h = h n

-- A commit whose queue is safe, whatever is left.
pub commit-IsSafe :
    {A : Type 0} (f : UploadQueue → UploadQueue × A) (w : World)
    → IsSafe w
    → IsSafe (record w { queue = (f w.queue).0 })
    → IsSafe (commit f w).0
unfolding commit
commit-IsSafe f w s h =
    spend-IsSafe w.left w _ (f w.queue).1 s
      (λ n. record { unique = h.unique; verified = h.verified; told = h.told; founded = h.founded })

pub handled-IsSafe :
    {A : Type 0} (g : Error → Action A) (x : World × Outcome A)
    → IsSafe x.0
    → ((e : Error) (w : World) → IsSafe w → IsSafe (g e w).0)
    → IsSafe (handled g x).0
handled-IsSafe g (w, returned b) s h = s
handled-IsSafe g (w, raised e) s h = h e w s
handled-IsSafe g (w, killed) s h = s

pub prune-IsSafe : (st : Settings) (now : ℕ) (w : World) → IsSafe w → IsSafe (prune st now w).0
unfolding prune prune_completed
prune-IsSafe st now w s = commit-IsSafe _ w s (record {
  unique = Unique-select _ w.queue s.unique;
  verified = All-select (Verified w.log) _ w.queue s.verified;
  told = All-select (Told w.log) _ w.queue s.told;
  founded = s.founded;
})

module _ (st : Settings) (env : ℕ → Attempt) where
  prune_if_old-IsSafe :
      (t : Turn) (last : ℕ) (w : World) → IsSafe w → IsSafe (prune_if_old st env t last w).0
  prune_if_old-IsSafe t last w s = elim (Bool-cases (ltb (last + prune_interval) t.drained_at)) [
    | inl e ↦ rw e (
        Safe-after (prune st t.pruned_at w) (λ n. give t.drained_at)
          (prune-IsSafe st t.pruned_at w s) (λ n v k. k))
    | inr e ↦ rw e s
  ]

  turn-IsSafe : (t : Turn) (last : ℕ) (w : World) → IsSafe w → IsSafe (turn st env t last w).0
  unfolding turn
  turn-IsSafe t last w s =
      handled-IsSafe (λ e. give last)
        (after (run_once st env t.started_at w) (λ n. prune_if_old st env t last))
        (Safe-after (run_once st env t.started_at w) (λ n. prune_if_old st env t last)
          (run_once-Runs st env t.started_at w s).safe (λ n v k. prune_if_old-IsSafe t last v k))
        (λ e v k. k)

  turns-IsSafe :
      (ts : List Turn) (last : ℕ) (w : World) → IsSafe w → IsSafe (turns st env ts last w).0
  unfolding turns
  turns-IsSafe [] last w s = s
  turns-IsSafe (t ∷ ts) last w s =
      Safe-after (turn st env t last w) (turns st env ts) (turn-IsSafe t last w s)
        (λ n v k. turns-IsSafe ts n v k)

  pub serve-IsSafe : (ts : List Turn) (w : World) → IsSafe w → IsSafe (serve st env ts w).0
  unfolding serve
  serve-IsSafe ts w s =
      Safe-after _ (λ n. turns st env ts 0) (finalize_licenses-Runs st env w s).safe
        (λ n v k. turns-IsSafe ts 0 v k)
