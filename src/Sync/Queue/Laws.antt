-- ===== src/Sync/Queue/Laws.antt =====
-- What pruning and failures do to the upload queue (apps/door-sync/src/door_sync/queue.py).
use doorboard.Prelude.{
  ℕ, suc, ◌+◌, ◌<◌, ◌≤◌, ◌≡◌, refl, ap, Bool, true, false, inl, inr, Bool-cases, Option, some, List,
  [], ◌∷◌, All, arith, length, ◌==◌, if◌then◌else◌, some-injective,
}
use doorboard.Sync.Queue.{
  QueueItem, UploadQueue, pending, dead_letter, Target, get, update, select, sort_by, is_due,
  due_items, awaits_license, items_awaiting_license, is_prunable, prune_completed, Failure, fail,
  failures_after, status_after, record_failure, is_dead, iter_dead_letters,
}

-- A choice that leaves every row of another choice.
select-select :
    (p q : QueueItem → Bool) (is : UploadQueue)
    → ((i : QueueItem) → p i ≡ true → q i ≡ true)
    → select p (select q is) ≡ select p is
select-select p q [] h = refl
select-select p q (i ∷ is) h = elim (Bool-cases (p i)) [
  | inl e ↦ rw (h i e, e) (ap (λ x. i ∷ x) (select-select p q is h))
  | inr e ↦ elim (Bool-cases (q i)) [
    | inl f ↦ rw (e, f, e) (select-select p q is h)
    | inr f ↦ rw (e, f) (select-select p q is h)
  ]
]

length-select :
    (p : QueueItem → Bool) (is : UploadQueue)
    → length is ≡ length (select (λ i. if p i then false else true) is) + length (select p is)
length-select p [] = omega arith
length-select p (i ∷ is) = elim (Bool-cases (p i)) [
  | inl e ↦ rw e (omega (arith, length-select p is))
  | inr e ↦ rw e (omega (arith, length-select p is))
]

due_stays :
    (cutoff now : ℕ) (t : Option Target) (i : QueueItem)
    → is_due now t i ≡ true
    → (if is_prunable cutoff i then false else true) ≡ true
due_stays cutoff now t i h = ground arith

awaiting_stays :
    (cutoff : ℕ) (i : QueueItem)
    → awaits_license i ≡ true
    → (if is_prunable cutoff i then false else true) ≡ true
awaiting_stays cutoff i h = ground arith

dead_stays :
    (cutoff : ℕ) (i : QueueItem)
    → is_dead i.status ≡ true
    → (if is_prunable cutoff i then false else true) ≡ true
dead_stays cutoff i h = ground arith

-- Pruning forgets nothing that has work left: the items that are due, at any time and for any
-- target, the clips that wait for their license and the dead letters are the same as before; and it
-- returns the number of rows that it deletes.
pub prune-forgets_nothing :
    (cutoff now : ℕ) (t : Option Target) (q : UploadQueue)
    → (due_items now t (prune_completed cutoff q).0 ≡ due_items now t q)
      × (items_awaiting_license (prune_completed cutoff q).0 ≡ items_awaiting_license q)
      × (iter_dead_letters (prune_completed cutoff q).0 ≡ iter_dead_letters q)
      × (length q ≡ length (prune_completed cutoff q).0 + (prune_completed cutoff q).1)
unfolding prune_completed due_items items_awaiting_license iter_dead_letters
prune-forgets_nothing cutoff now t q = (
  ap (sort_by _) (select-select (is_due now t) _ q (due_stays cutoff now t)),
  ap (sort_by _) (select-select awaits_license _ q (awaiting_stays cutoff)),
  select-select (λ i. is_dead i.status) _ q (dead_stays cutoff),
  length-select (is_prunable cutoff) q,
)

-- Failures of one item, one after the other, each with its time.
unfoldable pub record_failures : ℕ → List (ℕ × Failure) → UploadQueue → UploadQueue
record_failures k [] q = q
record_failures k ((now, f) ∷ fs) q = record_failures k fs (record_failure now k f q).0

abbrev pub permanents : List (ℕ × Failure) → ℕ
permanents [] = 0
permanents ((now, f) ∷ fs) = if f.permanent then suc (permanents fs) else permanents fs

get-fail :
    (now k : ℕ) (f : Failure) (q : UploadQueue) {i : QueueItem}
    → get k q ≡ some i
    → get k (update k (fail now f) q) ≡ some (fail now f i)
get-fail now k f [] e = cc
get-fail now k f (r ∷ rs) e = elim (Bool-cases (r.item_id == k)) [
  | inl t ↦ rw (t, t) (ap (λ x. some (fail now f x)) (some-injective r _ (rw t at e)))
  | inr t ↦ rw (t, t) (get-fail now k f rs (rw t at e))
]

pub record_failure-get :
    (now k : ℕ) (f : Failure) (q : UploadQueue) {i : QueueItem}
    → get k q ≡ some i
    → get k (record_failure now k f q).0 ≡ some (fail now f i)
unfolding record_failure
record_failure-get now k f q e = rw e (get-fail now k f q e)

spared :
    (f : Failure) (i : QueueItem) (rest : ℕ)
    → failures_after f i + rest < f.max_permanent_attempts
    → status_after f i ≡ pending
spared f i rest h = ground arith

counted :
    (f : Failure) (i : QueueItem) (now : ℕ) (fs : List (ℕ × Failure))
    → failures_after f i + permanents fs ≡ i.permanent_failures + permanents ((now, f) ∷ fs)
counted f i now fs = ground arith

-- An item that fails, however often, is pending as long as fewer of its failures than the cap are
-- permanent, so transient failures alone never make a dead letter; every failure is counted.
pub record_failures-pending :
    (k cap_of : ℕ) (fs : List (ℕ × Failure)) (q : UploadQueue) (i : QueueItem)
    → get k q ≡ some i
    → i.status ≡ pending
    → All (λ f. f.1.max_permanent_attempts ≡ cap_of) fs
    → i.permanent_failures + permanents fs < cap_of
    → (j : QueueItem) × (get k (record_failures k fs q) ≡ some j)
      × (j.status ≡ pending)
      × (j.attempts ≡ i.attempts + length fs)
      × (j.permanent_failures ≡ i.permanent_failures + permanents fs)
unfolding record_failures
record_failures-pending k m [] q i e p h l = (i, e, p, omega arith, omega arith)
record_failures-pending k m ((now, f) ∷ fs) q i e p h l =
    let sum = counted f i now fs in
    let (j, there, alive, tried, failed) =
      record_failures-pending k m fs (record_failure now k f q).0 (fail now f i)
        (record_failure-get now k f q e) (spared f i (permanents fs) (omega (arith, sum, h.0))) h.1
        (omega (arith, sum)) in
    (j, there, alive, omega arith, omega (arith, sum))

cap_reached :
    (f : Failure) (i : QueueItem)
    → f.permanent ≡ true
    → f.max_permanent_attempts ≤ i.permanent_failures + 1
    → status_after f i ≡ dead_letter
cap_reached f i p l = ground arith

-- A permanent failure that reaches the cap makes a dead letter, which is what is returned, and which
-- no pass takes up again.
pub record_failure-dead :
    (now k at : ℕ) (t : Option Target) (f : Failure) (q : UploadQueue) (i : QueueItem)
    → get k q ≡ some i
    → f.permanent ≡ true
    → f.max_permanent_attempts ≤ i.permanent_failures + 1
    → ((record_failure now k f q).1 ≡ dead_letter)
      × ((j : QueueItem) × (get k (record_failure now k f q).0 ≡ some j)
          × (j.status ≡ dead_letter)
          × (is_due at t j ≡ false))
unfolding record_failure
record_failure-dead now k at t f q i e p l =
    let dead = cap_reached f i p l in
    (rw e dead, (fail now f i, record_failure-get now k f q e, dead, rw dead refl))
