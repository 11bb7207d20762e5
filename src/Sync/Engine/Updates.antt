-- ===== src/Sync/Engine/Updates.antt =====
-- The statements on the row of an item keep a run of the sync engine safe
-- (apps/door-sync/src/door_sync/engine.py and queue.py).
use doorboard.Prelude.{
  ℕ, ◌≡◌, refl, Bool, true, false, ◌&&◌, inl, inr, Bool-cases, Option, none, some, List, [], ◌∷◌,
  String, All, arith, ◌==◌, ==_iff,
}
use doorboard.Sync.Queue.{
  QueueItem, UploadQueue, is_completed, is_media, is_clip, is_pending, get, update, complete,
  license, fail, status_after, Failure, mark_completed, mark_licensed, record_at, record_failure,
}
use doorboard.Sync.Queue.Rows.{
  When, Matches, SameItem, Keeps, Unique-update, Matches-update, All-update,
}
use doorboard.Sync.World.{Effect, archived, notified, World, commit, Occurs}
use doorboard.Sync.Engine.Safety.{Declared, VerifiedAs, Verified, Told, IsSafe, Runs}
use doorboard.Sync.Engine.Statements.{Admits, commit-Runs}

-- The statements of the queue. Each is about the item that the engine works on.
pub complete-Keeps : (now : ℕ) (v : Option String) (l : Bool) → Keeps (complete now v l)
complete-Keeps now v l = record {
  id = λ i. ground arith;
  item = λ i. (ground arith, ground arith, ground arith);
}

pub license-Keeps : (now : ℕ) → Keeps (license now)
license-Keeps now = record { id = λ i. refl; item = λ i. (refl, refl, refl) }

fail-Keeps : (now : ℕ) (f : Failure) → Keeps (fail now f)
fail-Keeps now f = record { id = λ i. refl; item = λ i. (refl, refl, refl) }

All-three :
    (P Q R : QueueItem → Type 0) (q : UploadQueue)
    → All P q
    → All Q q
    → All R q
    → All (λ r. P r × Q r × R r) q
All-three P Q R [] p o r = tt
All-three P Q R (i ∷ is) p o r = ((p.0, o.0, r.0), All-three P Q R is p.1 o.1 r.1)

-- An update of the row of an item, from what it does to a row that is the item.
update-Admits :
    (i : QueueItem) (f : QueueItem → QueueItem) (w : World)
    → IsSafe w
    → Matches w.queue i
    → Keeps f
    → ((r : QueueItem)
        → r.item_id ≡ i.item_id
        → SameItem r i
        → Verified w.log r
        → Told w.log r
        → Verified w.log (f r) × Told w.log (f r))
    → Admits (update i.item_id f w.queue) w
update-Admits i f w s m h change =
    let all =
      All-three (Verified w.log) (Told w.log) (λ r. When (r.item_id == i.item_id) (SameItem r i))
        w.queue s.verified s.told m in
    record {
      unique = Unique-update i.item_id f w.queue h s.unique;
      verified =
          All-update _ (Verified w.log) i.item_id f w.queue (λ r p. p.0)
            (λ r e p. (change r ((==_iff r.item_id i.item_id).0 e) (rw e at p.2) p.0 p.1).0) all;
      told =
          All-update _ (Told w.log) i.item_id f w.queue (λ r p. p.1)
            (λ r e p. (change r ((==_iff r.item_id i.item_id).0 e) (rw e at p.2) p.0 p.1).1) all;
      matches = λ j. Matches-update i.item_id f w.queue j h;
    }

-- With what an item may be completed: a media item with a checksum that is archived, any other with
-- none; and a clip without its license.
abbrev pub MayComplete : List Effect → QueueItem → Option String → Bool → Type 0
MayComplete log i none l = (is_media i.kind ≡ false) × ((is_clip i.kind && l) ≡ false)
MayComplete log i (some sha) l =
    Occurs (archived i.item_id i.dest_key sha) log
    × Declared i.expected_sha256 sha
    × ((is_clip i.kind && l) ≡ false)

complete-Verified :
    (log : List Effect) (now : ℕ) (i r : QueueItem) (v : Option String) (l : Bool)
    → MayComplete log i v l
    → is_pending r.status ≡ true
    → r.item_id ≡ i.item_id
    → SameItem r i
    → Verified log (complete now v l r) × Told log (complete now v l r)
complete-Verified log now i r none l m e id (kind, key, expected) =
    rw e (rw (kind, m.0) (refl, rw m.1 tt))
complete-Verified log now i r (some sha) l m e id (kind, key, expected) =
    rw e (rw (id, key, expected, kind, m.2) ((m.0, m.1), tt))

complete_row :
    (log : List Effect) (now : ℕ) (i r : QueueItem) (v : Option String) (l : Bool)
    → MayComplete log i v l
    → r.item_id ≡ i.item_id
    → SameItem r i
    → Verified log r
    → Told log r
    → Verified log (complete now v l r) × Told log (complete now v l r)
complete_row log now i r v l m id same h t = elim (Bool-cases (is_pending r.status)) [
  | inl e ↦ complete-Verified log now i r v l m e id same
  | inr e ↦ rw e (h, t)
]

pub mark_completed-Runs :
    (now : ℕ) (i : QueueItem) (v : Option String) (l : Bool) (w : World)
    → IsSafe w
    → Matches w.queue i
    → MayComplete w.log i v l
    → Runs w (commit (λ q. (mark_completed now i.item_id v l q, tt)) w) (λ _ _. Unit {0})
unfolding mark_completed
mark_completed-Runs now i v l w s m may = commit-Runs _ w s (
    update-Admits i (complete now v l) w s m (complete-Keeps now v l)
      (λ r. complete_row w.log now i r v l may))

license_row :
    (log : List Effect) (now : ℕ) (r : QueueItem)
    → ((recording : ℕ) × (sha : String) × (attempts : ℕ) × Occurs
          (notified r.item_id recording sha attempts)
          log)
    → Told log (license now r)
license_row log now r o = elim (Bool-cases (is_clip r.kind)) [ inl e ↦ rw e o | inr e ↦ rw e tt ]

pub mark_licensed-Runs :
    (now : ℕ) (i : QueueItem) (w : World) {recording : ℕ} {sha : String} {attempts : ℕ}
    → IsSafe w
    → Matches w.queue i
    → Occurs (notified i.item_id recording sha attempts) w.log
    → Runs w (commit (λ q. (mark_licensed now i.item_id q, tt)) w) (λ _ _. Unit {0})
unfolding mark_licensed
mark_licensed-Runs now i w {recording} {sha} {attempts} s m o = commit-Runs _ w s (
    update-Admits i (license now) w s m (license-Keeps now)
      (λ r id same h t. (h, license_row w.log now r (recording, sha, attempts, rw id o))))

not_completed : (f : Failure) (i : QueueItem) → is_completed (status_after f i) ≡ false
not_completed f i = ground arith

fail_row :
    (log : List Effect) (now : ℕ) (f : Failure) (r : QueueItem) (v : Option String)
    → r.verified_sha256 ≡ v
    → VerifiedAs log r v
    → VerifiedAs log (fail now f r) v
fail_row log now f r none e h = rw (not_completed f r) refl
fail_row log now f r (some sha) e h = h

record_at-Admits :
    (now : ℕ) (i : QueueItem) (f : Failure) (o : Option QueueItem) (w : World)
    → IsSafe w
    → Matches w.queue i
    → Admits (record_at now i.item_id f o w.queue).0 w
record_at-Admits now i f none w s m = record {
  unique = s.unique;
  verified = s.verified;
  told = s.told;
  matches = λ j h. h;
}
record_at-Admits now i f (some r) w s m =
    update-Admits i (fail now f) w s m (fail-Keeps now f)
      (λ r id same h t. (fail_row w.log now f r r.verified_sha256 refl h, t))

pub record_failure-Runs :
    (now : ℕ) (i : QueueItem) (f : Failure) (w : World)
    → IsSafe w
    → Matches w.queue i
    → Runs w (commit (record_failure now i.item_id f) w) (λ _ _. Unit {0})
unfolding record_failure
record_failure-Runs now i f w s m =
    commit-Runs _ w s (record_at-Admits now i f (get i.item_id w.queue) w s m)
