-- ===== src/Door/Social/Store.antt =====
-- The tables of what visitors leave (apps/door-api/src/door_api/social/store.py). A table is the list
-- of its rows in the order of insertion. Identifiers are drawn by `uuid4` and taken to be new; only
-- the key of `poll_votes` can be there already. Texts are lists of code points.
use doorboard.Prelude.{
  ℕ, suc, String, Bool, true, false, ◌&&◌, not, Option, none, some, List, [], ◌∷◌, ◌++◌, ltb, ◌==◌,
  str_eq, if◌then◌else◌, take,
}
use doorboard.Door.Session.Recipients.{Text}

pub data GuestbookStatus : Type 0 where
  pending approved deleted : GuestbookStatus

pub record GuestbookEntry : Type 0 where
  pub id : ℕ
  pub text : Text
  pub author_label : Option Text
  pub status : GuestbookStatus
  pub ip_hash : String
  pub session_key_hash : String
  pub created_at : ℕ
  pub deleted_at : Option ℕ

pub data PollStatus : Type 0 where
  poll_open poll_closed : PollStatus

pub record PollRow : Type 0 where
  pub id : ℕ
  pub question : Text
  pub status : PollStatus
  pub created_at : ℕ
  pub closed_at : Option ℕ

pub record PollOption : Type 0 where
  pub id : ℕ
  pub poll_id : ℕ
  pub text : Text
  pub sort_order : ℕ

pub record Vote : Type 0 where
  pub poll_id : ℕ
  pub session_token : String
  pub option_id : ℕ
  pub created_at : ℕ

pub record Checkin : Type 0 where
  pub id : ℕ
  pub person_id : Option ℕ
  pub label : Option Text
  pub photo_recording_id : Option ℕ
  pub session_key_hash : String
  pub created_at : ℕ
  pub deleted_at : Option ℕ

pub data TargetKind : Type 0 where
  guestbook_target poll_target checkin_target : TargetKind

pub data LoggedAction : Type 0 where
  was_created was_approved was_deleted was_closed : LoggedAction

pub data Actor : Type 0 where
  visitor admin : Actor

pub record LogRow : Type 0 where
  pub id : ℕ
  pub target_kind : TargetKind
  pub target_id : ℕ
  pub action : LoggedAction
  pub actor : Actor
  pub created_at : ℕ

pub record SocialStore : Type 0 where
  pub guestbook : List GuestbookEntry
  pub polls : List PollRow
  pub poll_options : List PollOption
  pub poll_votes : List Vote
  pub checkins : List Checkin
  pub moderation_log : List LogRow

abbrev pub empty_store : SocialStore
empty_store = record {
  guestbook = [];
  polls = [];
  poll_options = [];
  poll_votes = [];
  checkins = [];
  moderation_log = [];
}

-- The rows that pass a test changed, and how many they were.
abbrev pub update_where {ℓ} : {A : Type ℓ} → (A → Bool) → (A → A) → List A → List A
update_where p f [] = []
update_where p f (x ∷ xs) = (if p x then f x else x) ∷ update_where p f xs

abbrev pub any_where {ℓ} : {A : Type ℓ} → (A → Bool) → List A → Bool
any_where p [] = false
any_where p (x ∷ xs) = if p x then true else any_where p xs

abbrev pub find_where {ℓ} : {A : Type ℓ} → (A → Bool) → List A → Option A
find_where p [] = none
find_where p (x ∷ xs) = if p x then some x else find_where p xs

abbrev pub select {ℓ} : {A : Type ℓ} → (A → Bool) → List A → List A
select p [] = []
select p (x ∷ xs) = let rest = select p xs in if p x then x ∷ rest else rest

abbrev pub has_status : GuestbookStatus → GuestbookEntry → Bool
has_status pending e = elim e.status [ pending ↦ true | _ ↦ false ]
has_status approved e = elim e.status [ approved ↦ true | _ ↦ false ]
has_status deleted e = elim e.status [ deleted ↦ true | _ ↦ false ]

unfoldable pub insert_guestbook_entry : GuestbookEntry → SocialStore → SocialStore
insert_guestbook_entry e s = record s { guestbook = s.guestbook ++ e ∷ [] }

-- `ORDER BY created_at DESC`
abbrev pub insert_newest : GuestbookEntry → List GuestbookEntry → List GuestbookEntry
insert_newest e [] = e ∷ []
insert_newest e (q ∷ qs) =
    let rest = insert_newest e qs in if ltb q.created_at e.created_at then e ∷ q ∷ qs else q ∷ rest

abbrev pub newest_first : List GuestbookEntry → List GuestbookEntry
newest_first [] = []
newest_first (e ∷ es) = insert_newest e (newest_first es)

abbrev pub before_cursor : Option ℕ → GuestbookEntry → Bool
before_cursor none e = true
before_cursor (some t) e = ltb e.created_at t

unfoldable pub list_guestbook_entries :
    GuestbookStatus → ℕ → Option ℕ → SocialStore → List GuestbookEntry
list_guestbook_entries status limit cursor s =
    take limit
      (newest_first (select (λ e. has_status status e && before_cursor cursor e) s.guestbook))

abbrev pub is_pending_entry : ℕ → GuestbookEntry → Bool
is_pending_entry i e = e.id == i && has_status pending e

abbrev pub approve : GuestbookEntry → GuestbookEntry
approve e = record e { status = approved }

unfoldable pub approve_guestbook_entry : ℕ → SocialStore → SocialStore × Bool
approve_guestbook_entry i s = (
  record s { guestbook = update_where (is_pending_entry i) approve s.guestbook },
  any_where (is_pending_entry i) s.guestbook,
)

-- `AND session_key_hash = ?`, where one is given.
abbrev pub owned : Option String → String → Bool
owned none h = true
owned (some k) h = str_eq h k

abbrev pub is_deletable_entry : ℕ → Option String → GuestbookEntry → Bool
is_deletable_entry i key e = e.id == i && not (has_status deleted e) && owned key e.session_key_hash

abbrev pub delete_entry : ℕ → GuestbookEntry → GuestbookEntry
delete_entry at e = record e { status = deleted; deleted_at = some at }

unfoldable pub soft_delete_guestbook_entry :
    ℕ → ℕ → Option String → SocialStore → SocialStore × Bool
soft_delete_guestbook_entry i at key s = (
  record s { guestbook = update_where (is_deletable_entry i key) (delete_entry at) s.guestbook },
  any_where (is_deletable_entry i key) s.guestbook,
)

-- The options with their places.
abbrev pub option_rows : ℕ → ℕ → List (ℕ × Text) → List PollOption
option_rows poll k [] = []
option_rows poll k ((i, t) ∷ rest) =
    record { id = i; poll_id = poll; text = t; sort_order = k } ∷ option_rows poll (suc k) rest

unfoldable pub insert_poll : ℕ → Text → List (ℕ × Text) → ℕ → SocialStore → SocialStore
insert_poll i question options at s = record s {
  polls =
      s.polls
      ++ record {
        id = i;
        question = question;
        status = poll_open;
        created_at = at;
        closed_at = none;
      }
        ∷ [];
  poll_options = s.poll_options ++ option_rows i 0 options;
}

unfoldable pub get_poll : ℕ → SocialStore → Option PollRow
get_poll i s = find_where (λ p. p.id == i) s.polls

abbrev pub is_open : PollRow → Bool
is_open p = elim p.status [ poll_open ↦ true | poll_closed ↦ false ]

abbrev pub close : ℕ → PollRow → PollRow
close at p = record p { status = poll_closed; closed_at = some at }

unfoldable pub close_poll : ℕ → ℕ → SocialStore → SocialStore × Bool
close_poll i at s = (
  record s { polls = update_where (λ p. p.id == i && is_open p) (close at) s.polls },
  any_where (λ p. p.id == i && is_open p) s.polls,
)

unfoldable pub option_belongs_to_poll : ℕ → ℕ → SocialStore → Bool
option_belongs_to_poll poll option s =
    any_where (λ o. o.id == option && o.poll_id == poll) s.poll_options

abbrev pub is_vote : ℕ → String → Vote → Bool
is_vote poll token v = v.poll_id == poll && str_eq v.session_token token

unfoldable pub has_voted : ℕ → String → SocialStore → Bool
has_voted poll token s = any_where (is_vote poll token) s.poll_votes

-- `PRIMARY KEY (poll_id, session_token)`
unfoldable pub insert_vote : ℕ → String → ℕ → ℕ → SocialStore → SocialStore × Bool
insert_vote poll token option at s =
    if any_where (is_vote poll token) s.poll_votes then (s, false) else (
      record s {
        poll_votes =
            s.poll_votes
            ++ record { poll_id = poll; session_token = token; option_id = option; created_at = at }
              ∷ [];
      },
      true,
    )

abbrev pub is_vote_for : ℕ → ℕ → Vote → Bool
is_vote_for poll option v = v.poll_id == poll && v.option_id == option

-- `COUNT(*) ... GROUP BY option_id`, where an option without votes counts 0.
abbrev pub count_votes : ℕ → ℕ → List Vote → ℕ
count_votes poll option [] = 0
count_votes poll option (v ∷ vs) =
    let rest = count_votes poll option vs in if is_vote_for poll option v then suc rest else rest

unfoldable pub insert_checkin : Checkin → SocialStore → SocialStore
insert_checkin c s = record s { checkins = s.checkins ++ c ∷ [] }

abbrev pub is_live_checkin : Checkin → Bool
is_live_checkin c = elim c.deleted_at [ none ↦ true | some t ↦ false ]

abbrev pub is_deletable_checkin : ℕ → Option String → Checkin → Bool
is_deletable_checkin i key c = c.id == i && is_live_checkin c && owned key c.session_key_hash

abbrev pub delete_checkin : ℕ → Checkin → Checkin
delete_checkin at c = record c { deleted_at = some at }

unfoldable pub soft_delete_checkin : ℕ → ℕ → Option String → SocialStore → SocialStore × Bool
soft_delete_checkin i at key s = (
  record s { checkins = update_where (is_deletable_checkin i key) (delete_checkin at) s.checkins },
  any_where (is_deletable_checkin i key) s.checkins,
)

unfoldable pub append_moderation_log : LogRow → SocialStore → SocialStore
append_moderation_log r s = record s { moderation_log = s.moderation_log ++ r ∷ [] }
