-- ===== src/Sync/Engine/License.antt =====
-- The licence of a clip whose callback is acknowledged (`_finalize_license` of
-- apps/door-sync/src/door_sync/engine.py).
use doorboard.Prelude.{ℕ, suc, ◌≡◌, refl, ap, ◌∙◌, some, ◌∷◌, String}
use doorboard.Sync.Queue.{QueueItem, get, update, license, mark_licensed}
use doorboard.Sync.World.{notified, upload_completed, returned, World, after, effect, read}
use doorboard.Sync.Engine.Updates.{license-Keeps}
use doorboard.Sync.Archive.{Settings, Attempt, acknowledged}
use doorboard.Sync.Engine.{
  emit_verified, emit_row, finalize_with, after_callback, emit_completed, after_notice, notify,
  finalize_license,
}
use doorboard.Sync.Engine.Lives.{get-update_same, effect-lives, commit-lives}

module _ (st : Settings) where
  emit-eq :
      (k : ℕ) (w : World) (n : ℕ) (j : QueueItem) (sha : String)
      → get k w.queue ≡ some j
      → j.verified_sha256 ≡ some sha
      → w.left ≡ suc n
      → emit_completed st k w ≡ (
        record w { log = upload_completed j.item_id sha j.attempts ∷ w.log; left = n },
        returned tt,
      )
  unfolding emit_completed read
  emit-eq k w n j sha e v l =
      ap (λ o. emit_row st o w) e
      ∙ ap (λ o. emit_verified st j o w) v
      ∙ effect-lives (upload_completed j.item_id sha j.attempts) w n l

  after_notice-eq :
      (a : Attempt) (k : ℕ) (w : World) (n : ℕ) (j : QueueItem) (sha : String)
      → get k w.queue ≡ some j
      → j.verified_sha256 ≡ some sha
      → w.left ≡ suc (suc n)
      → after_notice st a k w ≡ (
        record w {
          queue = mark_licensed a.now k w.queue;
          log = upload_completed j.item_id sha j.attempts ∷ w.log;
          left = n;
        },
        returned tt,
      )
  unfolding after_notice mark_licensed
  after_notice-eq a k w n j sha e v l =
      ap (λ x. after x (λ _. emit_completed st k)) (commit-lives _ w (suc n) l)
      ∙ emit-eq k (record w { queue = update k (license a.now) w.queue; left = suc n }) n
          (license a.now j) sha (get-update_same k (license a.now) w.queue (license-Keeps a.now) e)
          v refl

  finalize-eq :
      (a : Attempt) (w : World) (n : ℕ) (j : QueueItem) (recording : ℕ) (sha : String)
      → get j.item_id w.queue ≡ some j
      → j.recording_id ≡ some recording
      → j.verified_sha256 ≡ some sha
      → a.callback ≡ acknowledged
      → w.left ≡ suc (suc (suc n))
      → finalize_license st a j w ≡ (
        record w {
          queue = mark_licensed a.now j.item_id w.queue;
          log =
              upload_completed j.item_id sha j.attempts
              ∷ notified j.item_id recording sha j.attempts
              ∷ w.log;
          left = n;
        },
        returned tt,
      )
  unfolding finalize_license notify
  finalize-eq a w n j recording sha e r v c l =
      let note = notified j.item_id recording sha j.attempts in
      ap (λ o. finalize_with st a j o j.verified_sha256 w) r
      ∙ ap (λ o. finalize_with st a j (some recording) o w) v
      ∙ ap (λ b. after_callback st b (effect note) (after_notice st a j.item_id) w) c
      ∙ ap (λ x. after x (λ _. after_notice st a j.item_id)) (effect-lives note w (suc (suc n)) l)
      ∙ after_notice-eq a j.item_id (record w { log = note ∷ w.log; left = suc (suc n) }) n j sha e
          v refl

  pub finalize_as :
      (a : Attempt) (w : World) (n k t : ℕ) (j : QueueItem) (recording : ℕ) (sha : String)
      → j.item_id ≡ k
      → j.attempts ≡ t
      → get k w.queue ≡ some j
      → j.recording_id ≡ some recording
      → j.verified_sha256 ≡ some sha
      → a.callback ≡ acknowledged
      → w.left ≡ suc (suc (suc n))
      → finalize_license st a j w ≡ (
        record w {
          queue = mark_licensed a.now k w.queue;
          log = upload_completed k sha t ∷ notified k recording sha t ∷ w.log;
          left = n;
        },
        returned tt,
      )
  finalize_as a w n k t j recording sha ek et e r v c l =
      finalize-eq a w n j recording sha (ap (λ x. get x w.queue) ek ∙ e) r v c l
      ∙ ap
          (λ x. (
            record w {
              queue = mark_licensed a.now x w.queue;
              log = upload_completed x sha j.attempts ∷ notified x recording sha j.attempts ∷ w.log;
              left = n;
            },
            returned tt,
          ))
          ek
      ∙ ap
          (λ x. (
            record w {
              queue = mark_licensed a.now k w.queue;
              log = upload_completed k sha x ∷ notified k recording sha x ∷ w.log;
              left = n;
            },
            returned tt,
          ))
          et
