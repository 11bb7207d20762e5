-- ===== src/Sync/Queue/Rows.antt =====
-- The statements on the rows of the upload queue (apps/door-sync/src/door_sync/queue.py).
use doorboard.Prelude.{
  ℕ, ◌≡◌, refl, subst, some-injective, ◌∙◌, Bool, true, false, inl, inr, Bool-cases, some, [], ◌∷◌,
  ◌++◌, arith, is_some, All, ◌==◌,
}
use doorboard.Sync.Queue.{QueueItem, UploadQueue, get, update, select, insert_by, sort_by}

-- A fact that is claimed under a test.
abbrev pub When : Bool → Type 0 → Type 0
When true P = P
When false P = Unit

-- No two rows share an id: the primary key.
abbrev pub Unique : UploadQueue → Type 0
Unique [] = Unit
Unique (i ∷ is) = (is_some (get i.item_id is) ≡ false) × Unique is

-- What no statement changes of a row.
abbrev pub SameItem : QueueItem → QueueItem → Type 0
SameItem r i =
    (r.kind ≡ i.kind) × (r.dest_key ≡ i.dest_key) × (r.expected_sha256 ≡ i.expected_sha256)

-- Every row with the item's id is the item, perhaps in another state.
abbrev pub Matches : UploadQueue → QueueItem → Type 0
Matches q i = All (λ r. When (r.item_id == i.item_id) (SameItem r i)) q

-- A statement that changes neither the id nor the item of a row.
pub record Keeps (f : QueueItem → QueueItem) : Type 0 where
  pub id : (i : QueueItem) → (f i).item_id ≡ i.item_id
  pub item : (i : QueueItem) → SameItem (f i) i

pub get-update :
    (k j : ℕ) (f : QueueItem → QueueItem) (q : UploadQueue)
    → Keeps f
    → is_some (get j (update k f q)) ≡ is_some (get j q)
get-update k j f [] h = refl
get-update k j f (i ∷ is) h = elim (Bool-cases (i.item_id == k)) [
  | inl e ↦ rw (e, h.id i) (ground (arith, get-update k j f is h))
  | inr e ↦ rw e (ground (arith, get-update k j f is h))
]

pub Unique-update :
    (k : ℕ) (f : QueueItem → QueueItem) (q : UploadQueue)
    → Keeps f
    → Unique q
    → Unique (update k f q)
Unique-update k f [] h u = tt
Unique-update k f (i ∷ is) h u = elim (Bool-cases (i.item_id == k)) [
  | inl e ↦ rw (e, h.id i) (get-update k i.item_id f is h ∙ u.0, Unique-update k f is h u.1)
  | inr e ↦ rw e (get-update k i.item_id f is h ∙ u.0, Unique-update k f is h u.1)
]

When-same :
    (b : Bool) (r r' i : QueueItem) → SameItem r' r → When b (SameItem r i) → When b (SameItem r' i)
When-same true r r' i s w = (s.0 ∙ w.0, s.1 ∙ w.1, s.2 ∙ w.2)
When-same false r r' i s w = tt

pub Matches-update :
    (k : ℕ) (f : QueueItem → QueueItem) (q : UploadQueue) (i : QueueItem)
    → Keeps f
    → Matches q i
    → Matches (update k f q) i
Matches-update k f [] i h m = tt
Matches-update k f (r ∷ rs) i h m = elim (Bool-cases (r.item_id == k)) [
  | inl e ↦
      rw (e, h.id r)
        (When-same (r.item_id == i.item_id) r (f r) i (h.item r) m.0, Matches-update k f rs i h m.1)
  | inr e ↦ rw e (m.0, Matches-update k f rs i h m.1)
]

-- A predicate of rows after an update, from what the update does to the rows with the id.
pub All-update :
    (P R : QueueItem → Type 0) (k : ℕ) (f : QueueItem → QueueItem) (q : UploadQueue)
    → ((r : QueueItem) → P r → R r)
    → ((r : QueueItem) → (r.item_id == k) ≡ true → P r → R (f r))
    → All P q
    → All R (update k f q)
All-update P R k f [] keep change h = tt
All-update P R k f (r ∷ rs) keep change h = elim (Bool-cases (r.item_id == k)) [
  | inl e ↦ rw e (change r e h.0, All-update P R k f rs keep change h.1)
  | inr e ↦ rw e (keep r h.0, All-update P R k f rs keep change h.1)
]

pub All-get :
    (P : QueueItem → Type 0) (k : ℕ) (q : UploadQueue) {i : QueueItem}
    → All P q
    → get k q ≡ some i
    → P i
All-get P k [] h e = cc
All-get P k (r ∷ rs) {i} h e = elim (Bool-cases (r.item_id == k)) [
  | inl t ↦ subst P (some-injective r i (rw t at e)) h.0
  | inr t ↦ All-get P k rs h.1 (rw t at e)
]

module _ (P : QueueItem → Type 0) where
  pub All-select : (p : QueueItem → Bool) (q : UploadQueue) → All P q → All P (select p q)
  All-select p [] h = tt
  All-select p (i ∷ is) h = elim (Bool-cases (p i)) [
    | inl e ↦ rw e (h.0, All-select p is h.1)
    | inr e ↦ rw e (All-select p is h.1)
  ]

  All-insert :
      (before : QueueItem → QueueItem → Bool) (i : QueueItem) (q : UploadQueue)
      → P i
      → All P q
      → All P (insert_by before i q)
  All-insert before i [] p h = (p, tt)
  All-insert before i (j ∷ js) p h = elim (Bool-cases (before i j)) [
    | inl e ↦ rw e (p, h)
    | inr e ↦ rw e (h.0, All-insert before i js p h.1)
  ]

  pub All-sort :
      (before : QueueItem → QueueItem → Bool) (q : UploadQueue) → All P q → All P (sort_by before q)
  All-sort before [] h = tt
  All-sort before (i ∷ is) h = All-insert before i (sort_by before is) h.0 (All-sort before is h.1)

-- With unique ids every row matches the queue.
absent-Matches : (q : UploadQueue) (i : QueueItem) → is_some (get i.item_id q) ≡ false → Matches q i
absent-Matches [] i h = tt
absent-Matches (r ∷ rs) i h = elim (Bool-cases (r.item_id == i.item_id)) [
  | inl e ↦ cc
  | inr e ↦ rw e (tt, absent-Matches rs i (rw e at h))
]

All-cons :
    (i : QueueItem) (is js : UploadQueue)
    → is_some (get i.item_id js) ≡ false
    → All (Matches is) js
    → All (Matches (i ∷ is)) js
All-cons i is [] h m = tt
All-cons i is (j ∷ js) h m = elim (Bool-cases (j.item_id == i.item_id)) [
  | inl e ↦ cc
  | inr e ↦
      let other : (i.item_id == j.item_id) ≡ false = ground arith in
      ((rw other tt, m.0), All-cons i is js (rw e at h) m.1)
]

pub Unique-Matches : (q : UploadQueue) → Unique q → All (Matches q) q
Unique-Matches [] u = tt
Unique-Matches (i ∷ is) u =
    let self : (i.item_id == i.item_id) ≡ true = ground arith in
    (
      (rw self (refl, refl, refl), absent-Matches is i u.0),
      All-cons i is is u.0 (Unique-Matches is u.1),
    )

-- Rows that are added, and rows that are chosen.
get-append :
    (k : ℕ) (q : UploadQueue) (i : QueueItem)
    → is_some (get k q) ≡ false
    → (i.item_id == k) ≡ false
    → is_some (get k (q ++ i ∷ [])) ≡ false
get-append k [] i h e = rw e refl
get-append k (r ∷ rs) i h e = elim (Bool-cases (r.item_id == k)) [
  | inl t ↦ cc
  | inr t ↦ rw t (get-append k rs i (rw t at h) e)
]

pub Unique-append :
    (q : UploadQueue) (i : QueueItem)
    → Unique q
    → is_some (get i.item_id q) ≡ false
    → Unique (q ++ i ∷ [])
Unique-append [] i u h = (refl, tt)
Unique-append (r ∷ rs) i u h = elim (Bool-cases (r.item_id == i.item_id)) [
  | inl t ↦ cc
  | inr t ↦
      let other : (i.item_id == r.item_id) ≡ false = ground arith in
      (get-append r.item_id rs i u.0 other, Unique-append rs i u.1 (rw t at h))
]

get-select :
    (k : ℕ) (p : QueueItem → Bool) (q : UploadQueue)
    → is_some (get k q) ≡ false
    → is_some (get k (select p q)) ≡ false
get-select k p [] h = refl
get-select k p (r ∷ rs) h = elim (Bool-cases (r.item_id == k)) [
  | inl t ↦ cc
  | inr t ↦ elim (Bool-cases (p r)) [
    | inl e ↦ rw (e, t) (get-select k p rs (rw t at h))
    | inr e ↦ rw e (get-select k p rs (rw t at h))
  ]
]

pub Unique-select : (p : QueueItem → Bool) (q : UploadQueue) → Unique q → Unique (select p q)
Unique-select p [] u = tt
Unique-select p (r ∷ rs) u = elim (Bool-cases (p r)) [
  | inl e ↦ rw e (get-select r.item_id p rs u.0, Unique-select p rs u.1)
  | inr e ↦ rw e (Unique-select p rs u.1)
]
