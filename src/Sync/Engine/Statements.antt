-- ===== src/Sync/Engine/Statements.antt =====
-- An effect outside, and a transaction that keeps the rows, keep a run of the sync engine safe
-- (apps/door-sync/src/door_sync/engine.py and queue.py).
use doorboard.Prelude.{
  ℕ, zero, suc, ◌≡◌, refl, ◌&&◌, inl, inr, Bool-cases, Option, none, some, List, [], ◌∷◌, String,
  All,
}
use doorboard.Sync.Queue.{QueueItem, UploadQueue, is_clip}
use doorboard.Sync.Queue.Rows.{Unique, Matches}
use doorboard.Sync.World.{
  Effect, returned, World, spend, effect, commit, read, draw, Occurs, here, there,
}
use doorboard.Sync.Engine.Safety.{VerifiedAs, Verified, Told, Founded, IsSafe, Later-refl, Runs}

-- A longer log.
VerifiedAs-cons :
    (e : Effect) (log : List Effect) (i : QueueItem) (v : Option String)
    → VerifiedAs log i v
    → VerifiedAs (e ∷ log) i v
VerifiedAs-cons e log i none h = h
VerifiedAs-cons e log i (some sha) h = (there h.0, h.1)

Told-cons : (e : Effect) (log : List Effect) (i : QueueItem) → Told log i → Told (e ∷ log) i
Told-cons e log i t = elim (Bool-cases (is_clip i.kind && i.licensed)) [
  | inl l ↦ rw l (let (r, s, n, o) = rw l at t in (r, s, n, there o))
  | inr l ↦ rw l tt
]

All-map :
    (P Q : QueueItem → Type 0) (q : UploadQueue) → ((i : QueueItem) → P i → Q i) → All P q → All Q q
All-map P Q [] f h = tt
All-map P Q (i ∷ is) f h = (f i h.0, All-map P Q is f h.1)

spend-Runs :
    {A : Type 0} (n : ℕ) (w : World) (next : ℕ → World) (a : A) (Q : A → World → Type 0)
    → IsSafe w
    → ((k : ℕ) → Runs w (next k, returned a) Q)
    → Runs w (spend n w next a) Q
spend-Runs zero w next a Q s h = record { safe = s; later = Later-refl w; result = tt }
spend-Runs (suc n) w next a Q s h = h n

-- An effect that is founded.
pub effect-Runs :
    (e : Effect) (w : World)
    → IsSafe w
    → Founded e w.log
    → Runs w (effect e w) (λ _ w'. Occurs e w'.log)
unfolding effect
effect-Runs e w s f = spend-Runs w.left w _ tt _ s (λ n. record {
  safe = record {
    unique = s.unique;
    verified =
        All-map (Verified w.log) _ w.queue (λ i v. VerifiedAs-cons e w.log i i.verified_sha256 v)
          s.verified;
    told = All-map (Told w.log) _ w.queue (Told-cons e w.log) s.told;
    founded = (f, s.founded);
  };
  later = record { occurs = λ d o. there o; matches = λ i m. m };
  result = here;
})

pub read-Runs :
    {A : Type 0} (f : UploadQueue → A) (w : World)
    → IsSafe w
    → Runs w (read f w) (λ a w'. a ≡ f w'.queue)
unfolding read
read-Runs f w s = record { safe = s; later = Later-refl w; result = refl }

pub draw-Runs :
    {A : Type 0} (env : ℕ → A) (w : World) → IsSafe w → Runs w (draw env w) (λ _ _. Unit)
unfolding draw
draw-Runs env w s = record {
  safe = record { unique = s.unique; verified = s.verified; told = s.told; founded = s.founded };
  later = record { occurs = λ e o. o; matches = λ i m. m };
  result = tt;
}

-- What a transaction has to keep.
pub record Admits (q : UploadQueue) (w : World) : Type 0 where
  pub unique : Unique q
  pub verified : All (Verified w.log) q
  pub told : All (Told w.log) q
  pub matches : (i : QueueItem) → Matches w.queue i → Matches q i

pub commit-Runs :
    {A : Type 0} (f : UploadQueue → UploadQueue × A) (w : World)
    → IsSafe w
    → Admits (f w.queue).0 w
    → Runs w (commit f w) (λ _ _. Unit)
unfolding commit
commit-Runs f w s a = spend-Runs w.left w _ (f w.queue).1 _ s (λ n. record {
  safe = record { unique = a.unique; verified = a.verified; told = a.told; founded = s.founded };
  later = record { occurs = λ e o. o; matches = a.matches };
  result = tt;
})
