-- ===== src/Sync/Engine/Drain.antt =====
-- A pass of the drain loop, and everything that can happen to the upload queue, with the process
-- killed at any instant (apps/door-sync/src/door_sync/engine.py).
use doorboard.Prelude.{ℕ, Bool, Option, none, some, List, [], ◌∷◌, String, All}
use doorboard.Sync.Queue.{
  QueueItem, UploadQueue, get, is_due, awaits_license, due_items, items_awaiting_license,
  created_before, completed_before, select, sort_by,
}
use doorboard.Sync.Queue.Rows.{Matches, Unique-Matches, All-select, All-sort}
use doorboard.Sync.World.{World}
use doorboard.Sync.Archive.{Settings, Attempt}
use doorboard.Sync.Engine.{finalize_each, finalize_licenses, process_each, run_once}
use doorboard.Sync.Engine.Safety.{
  VerifiedAs, Verified, IsSafe, Later, Later-trans, Runs, gives, Runs-after, Nothing,
}
use doorboard.Sync.Engine.Statements.{read-Runs, draw-Runs}
use doorboard.Sync.Engine.Finalize.{finalize_license-Runs}
use doorboard.Sync.Engine.Steps.{process_item-Runs}

-- What was read from the queue and is still to be worked on.
abbrev pub InQueue : World → QueueItem → Type 0
InQueue w i = Matches w.queue i × Verified w.log i

VerifiedAs-Later :
    (w w' : World) (i : QueueItem) (v : Option String)
    → Later w w'
    → VerifiedAs w.log i v
    → VerifiedAs w'.log i v
VerifiedAs-Later w w' i none l h = h
VerifiedAs-Later w w' i (some sha) l h = (l.occurs _ h.0, h.1)

InQueue-Later :
    (w w' : World) (is : List QueueItem) → Later w w' → All (InQueue w) is → All (InQueue w') is
InQueue-Later w w' [] l h = tt
InQueue-Later w w' (i ∷ is) l h = (
  (l.matches i h.0.0, VerifiedAs-Later w w' i i.verified_sha256 l h.0.1),
  InQueue-Later w w' is l h.1,
)

All-pair : (P Q : QueueItem → Type 0) (q : UploadQueue) → All P q → All Q q → All (λ i. P i × Q i) q
All-pair P Q [] p o = tt
All-pair P Q (i ∷ is) p o = ((p.0, o.0), All-pair P Q is p.1 o.1)

All-InQueue : (w : World) → IsSafe w → All (InQueue w) w.queue
All-InQueue w s =
    All-pair (Matches w.queue) (Verified w.log) w.queue (Unique-Matches w.queue s.unique) s.verified

chosen_InQueue :
    (before : QueueItem → QueueItem → Bool) (p : QueueItem → Bool) (w : World)
    → IsSafe w
    → All (InQueue w) (sort_by before (select p w.queue))
chosen_InQueue before p w s =
    All-sort (InQueue w) before (select p w.queue)
      (All-select (InQueue w) p w.queue (All-InQueue w s))

module _ (st : Settings) (env : ℕ → Attempt) where
  finalize_each-Runs :
      (is : List QueueItem) (w : World)
      → IsSafe w
      → All (InQueue w) is
      → Runs w (finalize_each st env is w) Nothing
  unfolding finalize_each
  finalize_each-Runs [] w s h = gives w 0 _ s tt
  finalize_each-Runs (i ∷ is) w s h =
      Runs-after w _ _ Nothing _ (draw-Runs env w s) (λ a w1 s1 l1 _.
        let h1 = InQueue-Later w w1 (i ∷ is) l1 h in
        Runs-after w1 _ _ Nothing _ (finalize_license-Runs st a i w1 s1 h1.0.0 h1.0.1)
          (λ _ w2 s2 l2 _.
            Runs-after w2 _ _ Nothing _ (read-Runs (get i.item_id) w2 s2) (λ row w3 s3 l3 _.
              Runs-after w3 _ _ Nothing _
                (finalize_each-Runs is w3 s3
                  (InQueue-Later w1 w3 is (Later-trans w1 w2 w3 l2 l3) h1.1))
                (λ n w4 s4 _ _. gives w4 _ _ s4 tt))))

  process_each-Runs :
      (is : List QueueItem) (w : World)
      → IsSafe w
      → All (InQueue w) is
      → Runs w (process_each st env is w) Nothing
  unfolding process_each
  process_each-Runs [] w s h = gives w 0 _ s tt
  process_each-Runs (i ∷ is) w s h = Runs-after w _ _ Nothing _ (draw-Runs env w s) (λ a w1 s1 l1 _.
      let h1 = InQueue-Later w w1 (i ∷ is) l1 h in
      Runs-after w1 _ _ Nothing _ (process_item-Runs st a i w1 s1 h1.0.0) (λ _ w2 s2 l2 _.
        Runs-after w2 _ _ Nothing _ (process_each-Runs is w2 s2 (InQueue-Later w1 w2 is l2 h1.1))
          (λ n w3 s3 _ _. gives w3 _ _ s3 tt)))

  pub finalize_licenses-Runs : (w : World) → IsSafe w → Runs w (finalize_licenses st env w) Nothing
  unfolding finalize_licenses items_awaiting_license
  finalize_licenses-Runs w s =
      Runs-after w _ _ Nothing _ (read-Runs items_awaiting_license w s) (λ is w1 s1 l1 e.
        finalize_each-Runs is w1 s1 (rw e (chosen_InQueue completed_before awaits_license w1 s1)))

  pub run_once-Runs : (now : ℕ) (w : World) → IsSafe w → Runs w (run_once st env now w) Nothing
  unfolding run_once due_items
  run_once-Runs now w s = Runs-after w _ _ Nothing _ (finalize_licenses-Runs w s) (λ _ w1 s1 l1 _.
      Runs-after w1 _ _ Nothing _ (read-Runs (due_items now none) w1 s1) (λ is w2 s2 l2 e.
        process_each-Runs is w2 s2 (rw e (chosen_InQueue created_before (is_due now none) w2 s2))))
