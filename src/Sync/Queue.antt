-- ===== src/Sync/Queue.antt =====
-- The upload queue of apps/door-sync/src/door_sync/queue.py. The table's rows stand in the order of
-- insertion. An item id is the text of a UUID, which is only compared and ordered, so a number
-- stands for it. Epochs and the ISO times of the clock are counted in milliseconds.
pub mod Rows
pub mod Laws
use doorboard.Prelude.{
  ℕ, ◌+◌, String, Bool, true, false, ◌&&◌, ◌||◌, Option, none, some, List, [], ◌∷◌, ◌++◌, length,
  take, ltb, leb, ◌==◌, is_some, get_or, if◌then◌else◌,
}

-- `ItemKind`; `unknown` is any other text that the column could hold.
pub data ItemKind : Type 0 where
  clip thumbnail event purge unknown : ItemKind

pub data ItemStatus : Type 0 where
  pending completed dead_letter : ItemStatus

pub data Target : Type 0 where
  nas nuc : Target

abbrev pub is_clip : ItemKind → Bool
is_clip clip = true
is_clip _ = false

abbrev pub is_media : ItemKind → Bool
is_media clip = true
is_media thumbnail = true
is_media _ = false

abbrev pub is_pending : ItemStatus → Bool
is_pending pending = true
is_pending _ = false

abbrev pub is_completed : ItemStatus → Bool
is_completed completed = true
is_completed _ = false

abbrev pub is_dead : ItemStatus → Bool
is_dead dead_letter = true
is_dead _ = false

abbrev same_target : Target → Target → Bool
same_target nas nas = true
same_target nuc nuc = true
same_target _ _ = false

-- `QueueItem`; `licensed` holds 0 or 1.
pub record QueueItem : Type 0 where
  pub item_id : ℕ
  pub kind : ItemKind
  pub target : Target
  pub status : ItemStatus
  pub dest_key : String
  pub recording_id : Option ℕ
  pub local_path : Option String
  pub expected_sha256 : Option String
  pub payload : Option String
  pub attempts : ℕ
  pub permanent_failures : ℕ
  pub next_attempt_at : ℕ
  pub last_error : Option String
  pub error_class : Option String
  pub verified_sha256 : Option String
  pub licensed : Bool
  pub trace_id : ℕ
  pub created_at : ℕ
  pub updated_at : ℕ
  pub completed_at : Option ℕ

pub record NewItem : Type 0 where
  pub item_id : ℕ
  pub kind : ItemKind
  pub target : Target
  pub dest_key : String
  pub trace_id : ℕ
  pub recording_id : Option ℕ
  pub local_path : Option String
  pub expected_sha256 : Option String
  pub payload : Option String

abbrev pub UploadQueue : Type 0
UploadQueue = List QueueItem

-- `SELECT * FROM queue_item WHERE item_id=?`
abbrev pub get : ℕ → UploadQueue → Option QueueItem
get k [] = none
get k (i ∷ is) = let rest = get k is in if i.item_id == k then some i else rest

-- The values of the INSERT, with the defaults of the schema.
abbrev pub row_of : ℕ → NewItem → QueueItem
row_of now i = record {
  item_id = i.item_id;
  kind = i.kind;
  target = i.target;
  status = pending;
  dest_key = i.dest_key;
  recording_id = i.recording_id;
  local_path = i.local_path;
  expected_sha256 = i.expected_sha256;
  payload = i.payload;
  attempts = 0;
  permanent_failures = 0;
  next_attempt_at = 0;
  last_error = none;
  error_class = none;
  verified_sha256 = none;
  licensed = false;
  trace_id = i.trace_id;
  created_at = now;
  updated_at = now;
  completed_at = none;
}

-- `INSERT OR IGNORE`: the primary key decides.
unfoldable pub enqueue : ℕ → NewItem → UploadQueue → UploadQueue × Bool
enqueue now i q = if is_some (get i.item_id q) then (q, false) else (q ++ row_of now i ∷ [], true)

-- `ORDER BY created_at ASC, item_id ASC`
abbrev pub created_before : QueueItem → QueueItem → Bool
created_before a b =
    ltb a.created_at b.created_at || (a.created_at == b.created_at && leb a.item_id b.item_id)

-- `ORDER BY completed_at ASC`, where NULL comes first.
abbrev pub completed_before : QueueItem → QueueItem → Bool
completed_before a b = elim a.completed_at [
  | none ↦ true
  | some s ↦ elim b.completed_at [ none ↦ false | some t ↦ leb s t ]
]

abbrev pub insert_by : (QueueItem → QueueItem → Bool) → QueueItem → UploadQueue → UploadQueue
insert_by before i [] = i ∷ []
insert_by before i (j ∷ js) =
    let rest = insert_by before i js in if before i j then i ∷ j ∷ js else j ∷ rest

abbrev pub sort_by : (QueueItem → QueueItem → Bool) → UploadQueue → UploadQueue
sort_by before [] = []
sort_by before (i ∷ is) = insert_by before i (sort_by before is)

-- `WHERE`
abbrev pub select : (QueueItem → Bool) → UploadQueue → UploadQueue
select p [] = []
select p (i ∷ is) = let rest = select p is in if p i then i ∷ rest else rest

abbrev pub is_due : ℕ → Option Target → QueueItem → Bool
is_due now target i =
    is_pending i.status
    && leb i.next_attempt_at now
    && elim target [ none ↦ true | some t ↦ same_target i.target t ]

unfoldable pub due_items : ℕ → Option Target → UploadQueue → List QueueItem
due_items now target q = sort_by created_before (select (is_due now target) q)

abbrev pub awaits_license : QueueItem → Bool
awaits_license i = is_completed i.status && is_clip i.kind && (if i.licensed then false else true)

unfoldable pub items_awaiting_license : UploadQueue → List QueueItem
items_awaiting_license q = sort_by completed_before (select awaits_license q)

unfoldable pub list_items : ℕ → UploadQueue → List QueueItem
list_items limit q = take limit (sort_by created_before q)

-- `UPDATE queue_item SET … WHERE item_id=?`
abbrev pub update : ℕ → (QueueItem → QueueItem) → UploadQueue → UploadQueue
update k f [] = []
update k f (i ∷ is) = (if i.item_id == k then f i else i) ∷ update k f is

-- The `SET` of `mark_completed`, with its `AND status='pending'`.
abbrev pub complete : ℕ → Option String → Bool → QueueItem → QueueItem
complete now verified licensed i =
    if is_pending i.status
    then record i {
      status = completed;
      verified_sha256 = verified;
      licensed = licensed;
      completed_at = some now;
      updated_at = now;
      last_error = none;
      error_class = none;
      attempts = i.attempts + 1;
    }
    else i

unfoldable pub mark_completed : ℕ → ℕ → Option String → Bool → UploadQueue → UploadQueue
mark_completed now k verified licensed q = update k (complete now verified licensed) q

abbrev pub license : ℕ → QueueItem → QueueItem
license now i = record i { licensed = true; updated_at = now }

unfoldable pub mark_licensed : ℕ → ℕ → UploadQueue → UploadQueue
mark_licensed now k q = update k (license now) q

-- The arguments of `record_failure` after the item's id. The message is the one
-- that is stored, which is cut to 500 characters.
pub record Failure : Type 0 where
  pub permanent : Bool
  pub next_attempt_at : ℕ
  pub error_class : String
  pub message : String
  pub max_permanent_attempts : ℕ

abbrev pub failures_after : Failure → QueueItem → ℕ
failures_after f i = if f.permanent then i.permanent_failures + 1 else i.permanent_failures

abbrev pub status_after : Failure → QueueItem → ItemStatus
status_after f i =
    if f.permanent && leb f.max_permanent_attempts (failures_after f i)
    then dead_letter
    else pending

-- The `SET` of `record_failure`; the count is the one that was read in the same transaction.
abbrev pub fail : ℕ → Failure → QueueItem → QueueItem
fail now f i = record i {
  status = status_after f i;
  attempts = i.attempts + 1;
  permanent_failures = failures_after f i;
  next_attempt_at = f.next_attempt_at;
  last_error = some f.message;
  error_class = some f.error_class;
  updated_at = now;
}

-- With the row that was read, if there is one.
abbrev pub record_at : ℕ → ℕ → Failure → Option QueueItem → UploadQueue → UploadQueue × ItemStatus
record_at now k f none q = (q, dead_letter)
record_at now k f (some i) q = (update k (fail now f) q, status_after f i)

unfoldable pub record_failure : ℕ → ℕ → Failure → UploadQueue → UploadQueue × ItemStatus
record_failure now k f q = record_at now k f (get k q) q

abbrev pub is_prunable : ℕ → QueueItem → Bool
is_prunable cutoff i =
    is_completed i.status
    && i.licensed
    && elim i.completed_at [ none ↦ false | some t ↦ ltb t cutoff ]

unfoldable pub prune_completed : ℕ → UploadQueue → UploadQueue × ℕ
prune_completed cutoff q = (
  select (λ i. if is_prunable cutoff i then false else true) q,
  length (select (is_prunable cutoff) q),
)

unfoldable pub iter_dead_letters : List QueueItem → List QueueItem
iter_dead_letters is = select (λ i. is_dead i.status) is
