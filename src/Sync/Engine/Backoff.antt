-- ===== src/Sync/Engine/Backoff.antt =====
-- The delay before an item is tried again, and the attempts after which there is none
-- (`_backoff_delay` and `_on_failure` of apps/door-sync/src/door_sync/engine.py).
use doorboard.Prelude.{ℕ, ◌+◌, ◌≤◌, ◌≡◌, refl, false, List, ◌∷◌, arith, ltb}
use doorboard.Sync.Queue.{QueueItem}
use doorboard.Sync.World.{Error, other_error, raised, World, draw}
use doorboard.Sync.Archive.{Settings, Attempt}
use doorboard.Sync.Engine.{
  float_bits, backoff_delay, on_failure, attempt, process_item, process_each,
}

-- `random.uniform` gives a number between its arguments.
abbrev pub IsUniform : (ℕ → ℕ → ℕ) → Type 0
IsUniform f = (lo hi : ℕ) → lo ≤ hi → (lo ≤ f lo hi) × (f lo hi ≤ hi)

overflow : Error
overflow = other_error "OverflowError" "int too large to convert to float"

module _ (st : Settings) where
  given_up :
      (a : Attempt) (i : QueueItem) (e : Error) (w : World)
      → float_bits ≤ i.attempts
      → on_failure st a i e w ≡ (w, raised overflow)
  unfolding on_failure backoff_delay overflow
  given_up a i e w l = let over : ltb i.attempts float_bits ≡ false = ground arith in rw over refl

  -- An item that has been tried 1024 times and fails again ends the pass: the pass raises, the queue
  -- is as it was, with the item due as before, and no item after it is tried.
  pub process_each-stops :
      (env : ℕ → Attempt) (i : QueueItem) (is : List QueueItem) (w : World) (e : Error)
      → float_bits ≤ i.attempts
      → attempt st (env w.draws) i.kind i (record w { draws = w.draws + 1 })
        ≡ (record w { draws = w.draws + 1 }, raised e)
      → process_each st env (i ∷ is) w ≡ (
        record w { draws = w.draws + 1 },
        raised (other_error "OverflowError" "int too large to convert to float"),
      )
  unfolding process_each process_item draw overflow
  process_each-stops env i is w e l h =
      rw (h, given_up (env w.draws) i e (record w { draws = w.draws + 1 }) l) refl
