-- ===== src/Visiond/PurgeOutbox.antt =====
-- The durable queue of person-data purges (apps/door-visiond/src/door_visiond/purge_outbox.py). The
-- rows stand in the order of insertion, and `person_id` is the primary key. Epochs and delays are
-- counted in milliseconds.
pub mod Laws
use doorboard.Prelude.{
  ℕ, ◌+◌, String, Bool, true, false, Option, none, some, List, [], ◌∷◌, ◌++◌, map, length, take,
  leb, str_eq, if◌then◌else◌,
}

pub record Row : Type 0 where
  pub person_id : String
  pub attempts : ℕ
  pub next_attempt_epoch : ℕ
  pub last_error : Option String
  pub created_epoch : ℕ

pub record PendingPurge : Type 0 where
  pub person_id : String
  pub attempts : ℕ

abbrev pub PurgeOutbox : Type 0
PurgeOutbox = List Row

abbrev pub has_person : String → PurgeOutbox → Bool
has_person p [] = false
has_person p (r ∷ rs) = if str_eq r.person_id p then true else has_person p rs

abbrev pub new_row : ℕ → String → Row
new_row now p = record {
  person_id = p;
  attempts = 0;
  next_attempt_epoch = now;
  last_error = none;
  created_epoch = now;
}

unfoldable pub enqueue : ℕ → String → PurgeOutbox → PurgeOutbox × Bool
enqueue now p q = if has_person p q then (q, false) else (q ++ new_row now p ∷ [], true)

-- `WHERE next_attempt_epoch <= ?`
abbrev pub due : ℕ → PurgeOutbox → PurgeOutbox
due now [] = []
due now (r ∷ rs) = let rest = due now rs in if leb r.next_attempt_epoch now then r ∷ rest else rest

-- `ORDER BY created_epoch`
abbrev pub insert : Row → PurgeOutbox → PurgeOutbox
insert r [] = r ∷ []
insert r (s ∷ ss) =
    let rest = insert r ss in if leb r.created_epoch s.created_epoch then r ∷ s ∷ ss else s ∷ rest

abbrev pub by_age : PurgeOutbox → PurgeOutbox
by_age [] = []
by_age (r ∷ rs) = insert r (by_age rs)

abbrev pub purge_of : Row → PendingPurge
purge_of r = record { person_id = r.person_id; attempts = r.attempts }

unfoldable pub pending : ℕ → ℕ → PurgeOutbox → List PendingPurge
pending limit now q = map purge_of (take limit (by_age (due now q)))

unfoldable pub mark_delivered : String → PurgeOutbox → PurgeOutbox
mark_delivered p [] = []
mark_delivered p (r ∷ rs) =
    let rest = mark_delivered p rs in if str_eq r.person_id p then rest else r ∷ rest

-- The arguments `attempts`, `time.time() + delay_s` and `error`, which is stored up to 500 characters.
abbrev pub failed_row : ℕ → ℕ → String → Row → Row
failed_row attempts at error r = record r {
  attempts = attempts;
  next_attempt_epoch = at;
  last_error = some error;
}

unfoldable pub mark_failed : ℕ → String → ℕ → ℕ → String → PurgeOutbox → PurgeOutbox
mark_failed now p attempts delay error [] = []
mark_failed now p attempts delay error (r ∷ rs) =
    (if str_eq r.person_id p then failed_row attempts (now + delay) error r else r)
    ∷ mark_failed now p attempts delay error rs

unfoldable pub depth : PurgeOutbox → ℕ
depth q = length q
