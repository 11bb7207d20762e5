-- ===== src/Sync/Engine/Finalize.antt =====
-- Completing an item and its license keep a run safe (apps/door-sync/src/door_sync/engine.py).
use doorboard.Prelude.{
  ℕ, ◌≡◌, refl, sym, true, false, inl, inr, Bool-cases, Option, none, some, String,
}
use doorboard.Sync.Queue.{QueueItem, is_clip, completed, get}
use doorboard.Sync.Queue.Rows.{Matches, Unique-Matches, All-get}
use doorboard.Sync.World.{archived, notified, upload_completed, World, effect, Occurs}
use doorboard.Sync.Archive.{Settings, Attempt, Callback, acknowledged, lost_answer, unreachable}
use doorboard.Sync.Engine.{
  emit_verified, emit_row, emit_completed, after_callback, after_notice, notify, finalize_with,
  finalize_license, finalize_row, complete_clip, complete_thumbnail, complete_media,
}
use doorboard.Sync.Engine.Safety.{
  Declared, VerifiedAs, Verified, IsSafe, Runs, gives, raises, Runs-after, Nothing, forget,
}
use doorboard.Sync.Engine.Updates.{MayComplete, mark_completed-Runs, mark_licensed-Runs}
use doorboard.Sync.Engine.Statements.{effect-Runs, read-Runs}

module _ (st : Settings) where
  emit_verified-Runs :
      (i : QueueItem) (v : Option String) (w : World)
      → IsSafe w
      → Runs w (emit_verified st i v w) Nothing
  emit_verified-Runs i none w s = gives w tt _ s tt
  emit_verified-Runs i (some sha) w s =
      forget (effect-Runs (upload_completed i.item_id sha i.attempts) w s tt)

  emit_row-Runs : (o : Option QueueItem) (w : World) → IsSafe w → Runs w (emit_row st o w) Nothing
  emit_row-Runs none w s = gives w tt _ s tt
  emit_row-Runs (some i) w s = emit_verified-Runs i i.verified_sha256 w s

  emit_completed-Runs : (k : ℕ) (w : World) → IsSafe w → Runs w (emit_completed st k w) Nothing
  unfolding emit_completed
  emit_completed-Runs k w s =
      Runs-after w _ _ Nothing _ (read-Runs (get k) w s) (λ o w' s' l q. emit_row-Runs o w' s')

  after_notice-Runs :
      (a : Attempt) (i : QueueItem) (w : World) {recording : ℕ} {sha : String} {attempts : ℕ}
      → IsSafe w
      → Matches w.queue i
      → Occurs (notified i.item_id recording sha attempts) w.log
      → Runs w (after_notice st a i.item_id w) Nothing
  unfolding after_notice
  after_notice-Runs a i w s m o =
      Runs-after w _ _ Nothing _ (mark_licensed-Runs a.now i w s m o)
        (λ _ w' s' l q. emit_completed-Runs i.item_id w' s')

  notice-Runs :
      (i : QueueItem) (recording : ℕ) (sha : String) (w : World)
      → IsSafe w
      → Occurs (archived i.item_id i.dest_key sha) w.log
      → Runs w
          (effect (notified i.item_id recording sha i.attempts) w)
          (λ _ w'. Occurs (notified i.item_id recording sha i.attempts) w'.log)
  notice-Runs i recording sha w s o =
      effect-Runs (notified i.item_id recording sha i.attempts) w s (i.dest_key, o)

  -- door-media is told of a checksum that is archived.
  callback-Runs :
      (b : Callback) (a : Attempt) (i : QueueItem) (recording : ℕ) (sha : String) (w : World)
      → IsSafe w
      → Matches w.queue i
      → Occurs (archived i.item_id i.dest_key sha) w.log
      → Runs w
          (after_callback st b
            (effect (notified i.item_id recording sha i.attempts))
            (after_notice st a i.item_id)
            w)
          Nothing
  callback-Runs acknowledged a i recording sha w s m o =
      Runs-after w _ _ Nothing _ (notice-Runs i recording sha w s o)
        (λ _ w' s' l q. after_notice-Runs a i w' s' (l.matches i m) q)
  callback-Runs lost_answer a i recording sha w s m o = forget (notice-Runs i recording sha w s o)
  callback-Runs unreachable a i recording sha w s m o = gives w tt _ s tt

  notify-Runs :
      (a : Attempt) (i : QueueItem) (recording : ℕ) (sha : String) (w : World)
      → IsSafe w
      → Matches w.queue i
      → Occurs (archived i.item_id i.dest_key sha) w.log
      → Runs w (notify st a i recording sha w) Nothing
  unfolding notify
  notify-Runs a i recording sha w s m o = callback-Runs a.callback a i recording sha w s m o

  finalize_with-Runs :
      (a : Attempt) (i : QueueItem) (r : Option ℕ) (v : Option String) (w : World)
      → IsSafe w
      → Matches w.queue i
      → VerifiedAs w.log i v
      → Runs w (finalize_with st a i r v w) Nothing
  finalize_with-Runs a i (some r) (some sha) w s m h = notify-Runs a i r sha w s m h.0
  finalize_with-Runs a i none v w s m h = raises w _ _ s
  finalize_with-Runs a i (some r) none w s m h = raises w _ _ s

  pub finalize_license-Runs :
      (a : Attempt) (i : QueueItem) (w : World)
      → IsSafe w
      → Matches w.queue i
      → Verified w.log i
      → Runs w (finalize_license st a i w) Nothing
  unfolding finalize_license
  finalize_license-Runs a i w s m h =
      finalize_with-Runs a i i.recording_id i.verified_sha256 w s m h

  -- A row that was just read.
  finalize_row-Runs :
      (a : Attempt) (k : ℕ) (o : Option QueueItem) (w : World)
      → IsSafe w
      → o ≡ get k w.queue
      → Runs w (finalize_row st a o w) Nothing
  unfolding finalize_row
  finalize_row-Runs a k none w s e = raises w _ _ s
  finalize_row-Runs a k (some i) w s e =
      finalize_license-Runs a i w s
        (All-get (Matches w.queue) k w.queue (Unique-Matches w.queue s.unique) (sym e))
        (All-get (Verified w.log) k w.queue s.verified (sym e))

  complete_clip-Runs :
      (a : Attempt) (i : QueueItem) (sha : String) (w : World)
      → IsSafe w
      → Matches w.queue i
      → MayComplete w.log i (some sha) false
      → Runs w (complete_clip st a i sha w) Nothing
  unfolding complete_clip
  complete_clip-Runs a i sha w s m may =
      Runs-after w _ _ Nothing _ (mark_completed-Runs a.now i (some sha) false w s m may)
        (λ _ w' s' l q.
          Runs-after w' _ _ Nothing _ (read-Runs (get i.item_id) w' s') (λ o w2 s2 l2 q2.
            Runs-after w2 _ _ Nothing _ (finalize_row-Runs a i.item_id o w2 s2 q2)
              (λ _ w3 s3 _ _. gives w3 completed _ s3 tt)))

  complete_thumbnail-Runs :
      (a : Attempt) (i : QueueItem) (sha : String) (w : World)
      → IsSafe w
      → Matches w.queue i
      → MayComplete w.log i (some sha) true
      → Runs w (complete_thumbnail st a i sha w) Nothing
  unfolding complete_thumbnail
  complete_thumbnail-Runs a i sha w s m may =
      Runs-after w _ _ Nothing _ (mark_completed-Runs a.now i (some sha) true w s m may)
        (λ _ w' s' l q.
          Runs-after w' _ _ Nothing _ (emit_completed-Runs i.item_id w' s')
            (λ _ w2 s2 _ _. gives w2 completed _ s2 tt))

  pub complete_media-Runs :
      (a : Attempt) (i : QueueItem) (sha : String) (w : World)
      → IsSafe w
      → Matches w.queue i
      → Occurs (archived i.item_id i.dest_key sha) w.log
      → Declared i.expected_sha256 sha
      → Runs w (complete_media st a i sha w) Nothing
  unfolding complete_media
  complete_media-Runs a i sha w s m o d = elim (Bool-cases (is_clip i.kind)) [
    | inl e ↦ rw e (complete_clip-Runs a i sha w s m (o, d, rw e refl))
    | inr e ↦ rw e (complete_thumbnail-Runs a i sha w s m (o, d, rw e refl))
  ]
