-- ===== src/Door/Social/Service.antt =====
-- The visitors' writes and their moderation (`SocialService` of
-- apps/door-api/src/door_api/social/service.py, and social/sanitize.py). The hashes and the Unicode
-- categories are arguments; a call brings the clocks and the identifiers that it draws.
use doorboard.Prelude.{
  ℕ, suc, String, Bool, true, false, not, Option, none, some, List, [], ◌∷◌, ◌++◌, length, ltb,
  if◌then◌else◌,
}
use doorboard.Door.Session.Recipients.{Text, strip}
use doorboard.Door.Social.RateLimit.{CompositeRateLimiter, allow_both}
use doorboard.Door.Social.Store.{
  pending, GuestbookEntry, PollRow, Checkin, TargetKind, guestbook_target, poll_target,
  checkin_target, LoggedAction, was_created, was_approved, was_deleted, was_closed, Actor, visitor,
  admin, SocialStore, is_open, insert_guestbook_entry, approve_guestbook_entry,
  soft_delete_guestbook_entry, insert_poll, get_poll, close_poll, option_belongs_to_poll,
  insert_vote, insert_checkin, soft_delete_checkin, append_moderation_log, count_votes,
}

-- `SocialConfig`, with the code outside.
pub record SocialConfig : Type 0 where
  pub is_control : ℕ → Bool
  pub hash_ip : String → String
  pub hash_session_key : String → String
  pub guestbook_text_max_len : ℕ
  pub guestbook_author_label_max_len : ℕ
  pub checkin_label_max_len : ℕ
  pub poll_question_max_len : ℕ
  pub poll_option_max_len : ℕ

abbrev pub without_control : (ℕ → Bool) → Text → Text
without_control p [] = []
without_control p (c ∷ cs) = let rest = without_control p cs in if p c then rest else c ∷ rest

abbrev pub checked : ℕ → Text → Option Text
checked most [] = none
checked most (c ∷ cs) = if ltb most (length (c ∷ cs)) then none else some (c ∷ cs)

-- `none` where `SanitizationError` is raised.
unfoldable pub sanitize_text : SocialConfig → ℕ → Text → Option Text
sanitize_text f most raw = checked most (strip (without_control f.is_control raw))

abbrev pub some_of : Option Text → Option (Option Text)
some_of none = none
some_of (some t) = some (some t)

abbrev pub sanitize_unless_blank : SocialConfig → ℕ → Text → Text → Option (Option Text)
sanitize_unless_blank f most raw [] = some none
sanitize_unless_blank f most raw (c ∷ cs) = some_of (sanitize_text f most raw)

unfoldable pub sanitize_optional_text : SocialConfig → ℕ → Option Text → Option (Option Text)
sanitize_optional_text f most none = some none
sanitize_optional_text f most (some raw) = sanitize_unless_blank f most raw (strip raw)

pub record SocialMetrics : Type 0 where
  pub guestbook_created : ℕ
  pub guestbook_rejected_invalid : ℕ
  pub guestbook_rejected_rate_limited : ℕ
  pub poll_votes_cast : ℕ
  pub poll_votes_rejected : ℕ
  pub checkins_created : ℕ
  pub checkins_rejected : ℕ
  pub deletion_requests : ℕ

pub data SocialEvent : Type 0 where
  guestbook_entry_created : (entry : ℕ) (text : Text) (author_label : Option Text) → SocialEvent
  poll_vote_cast : (poll option : ℕ) → SocialEvent
  checkin_created :
      (checkin : ℕ) (person : Option ℕ) (label : Option Text) (photo : Option ℕ) → SocialEvent
  deletion_requested : TargetKind → ℕ → SocialEvent

pub record SocialService : Type 0 where
  pub store : SocialStore
  pub limiter : CompositeRateLimiter
  pub metrics : SocialMetrics
  pub events : List SocialEvent

-- The monotonic clock, the time of day, and what is drawn; the caller's address and token.
pub record Call : Type 0 where
  pub now : ℕ
  pub at : ℕ
  pub id : ℕ
  pub log_id : ℕ
  pub ip : String
  pub session_token : String

pub data Outcome : Type 0 where
  done rate_limited invalid not_found is_closed already_voted unsupported_target : Outcome

abbrev pub Step : Type 0
Step = SocialService × Outcome

abbrev pub count : (SocialMetrics → SocialMetrics) → SocialService → SocialService
count f v = record v { metrics = f v.metrics }

abbrev pub refuse : (SocialMetrics → SocialMetrics) → Outcome → SocialService → Step
refuse f o v = (count f v, o)

abbrev pub with_store : SocialService → SocialStore → SocialService
with_store v s = record v { store = s }

abbrev pub log_moderation :
    Call → TargetKind → ℕ → LoggedAction → Actor → SocialService → SocialService
log_moderation c kind target action actor v = with_store v (
    append_moderation_log
      (record {
        id = c.log_id;
        target_kind = kind;
        target_id = target;
        action = action;
        actor = actor;
        created_at = c.at;
      })
      v.store)

abbrev pub emit : SocialEvent → SocialService → SocialService
emit e v = record v { events = v.events ++ e ∷ [] }

-- `_check_rate_limit`, and what follows when it allows.
abbrev pub limited :
    SocialConfig
    → Call
    → (SocialMetrics → SocialMetrics)
    → (SocialService → Step)
    → SocialService
    → Step
limited f c on_limit next v =
    let r = allow_both (f.hash_ip c.ip) c.session_token c.now v.limiter in
    let after = record v { limiter = r.0 } in
    if r.1 then next after else refuse on_limit rate_limited after

abbrev pub add_guestbook_limited : SocialMetrics → SocialMetrics
add_guestbook_limited m = record m {
  guestbook_rejected_rate_limited = suc m.guestbook_rejected_rate_limited;
}

abbrev pub add_guestbook_invalid : SocialMetrics → SocialMetrics
add_guestbook_invalid m = record m { guestbook_rejected_invalid = suc m.guestbook_rejected_invalid }

abbrev pub add_guestbook_created : SocialMetrics → SocialMetrics
add_guestbook_created m = record m { guestbook_created = suc m.guestbook_created }

abbrev pub add_vote_rejected : SocialMetrics → SocialMetrics
add_vote_rejected m = record m { poll_votes_rejected = suc m.poll_votes_rejected }

abbrev pub add_vote_cast : SocialMetrics → SocialMetrics
add_vote_cast m = record m { poll_votes_cast = suc m.poll_votes_cast }

abbrev pub add_checkin_rejected : SocialMetrics → SocialMetrics
add_checkin_rejected m = record m { checkins_rejected = suc m.checkins_rejected }

abbrev pub add_checkin_created : SocialMetrics → SocialMetrics
add_checkin_created m = record m { checkins_created = suc m.checkins_created }

abbrev pub add_deletion : SocialMetrics → SocialMetrics
add_deletion m = record m { deletion_requests = suc m.deletion_requests }

abbrev pub new_entry : SocialConfig → Call → Text → Option Text → GuestbookEntry
new_entry f c text author = record {
  id = c.id;
  text = text;
  author_label = author;
  status = pending;
  ip_hash = f.hash_ip c.ip;
  session_key_hash = f.hash_session_key c.session_token;
  created_at = c.at;
  deleted_at = none;
}

abbrev pub add_entry :
    SocialConfig → Call → Option Text → Option (Option Text) → SocialService → Step
add_entry f c none author v = refuse add_guestbook_invalid invalid v
add_entry f c (some text) none v = refuse add_guestbook_invalid invalid v
add_entry f c (some text) (some author) v = (
  emit (guestbook_entry_created c.id text author) (
      log_moderation c guestbook_target c.id was_created visitor (
        count add_guestbook_created
          (with_store v (insert_guestbook_entry (new_entry f c text author) v.store)))),
  done,
)

unfoldable pub create_guestbook_entry :
    SocialConfig → Call → Text → Option Text → SocialService → Step
create_guestbook_entry f c text author v =
    limited f c add_guestbook_limited
      (add_entry f c (sanitize_text f f.guestbook_text_max_len text)
        (sanitize_optional_text f f.guestbook_author_label_max_len author))
      v

-- What a statement did, and the entry of the log when it changed a row.
abbrev pub logged_if :
    Call → TargetKind → ℕ → LoggedAction → Actor → SocialService → SocialStore × Bool → Step
logged_if c kind target action actor v (s, true) =
    (log_moderation c kind target action actor (with_store v s), done)
logged_if c kind target action actor v (s, false) = (with_store v s, not_found)

unfoldable pub approve_entry : Call → ℕ → Actor → SocialService → Step
approve_entry c i actor v =
    logged_if c guestbook_target i was_approved actor v (approve_guestbook_entry i v.store)

unfoldable pub delete_guestbook_entry : Call → ℕ → Actor → SocialService → Step
delete_guestbook_entry c i actor v =
    logged_if c guestbook_target i was_deleted actor v
      (soft_delete_guestbook_entry i c.at none v.store)

abbrev pub consed : Option Text → Option (List Text) → Option (List Text)
consed (some t) (some ts) = some (t ∷ ts)
consed _ _ = none

abbrev pub sanitize_all : SocialConfig → List Text → Option (List Text)
sanitize_all f [] = some []
sanitize_all f (t ∷ ts) = consed (sanitize_text f f.poll_option_max_len t) (sanitize_all f ts)

-- The options with the identifiers drawn for them.
abbrev pub numbered_options : (ℕ → ℕ) → ℕ → List Text → List (ℕ × Text)
numbered_options draw k [] = []
numbered_options draw k (t ∷ ts) = (draw k, t) ∷ numbered_options draw (suc k) ts

abbrev pub add_poll :
    Call → (ℕ → ℕ) → Actor → Option Text → Option (List Text) → SocialService → Step
add_poll c draw actor (some question) (some options) v = (
  log_moderation c poll_target c.id was_created actor
      (with_store v (insert_poll c.id question (numbered_options draw 0 options) c.at v.store)),
  done,
)
add_poll c draw actor _ _ v = (v, invalid)

unfoldable pub create_poll :
    SocialConfig → Call → (ℕ → ℕ) → Text → List Text → Actor → SocialService → Step
create_poll f c draw question options actor v =
    if ltb (length options) 2
    then (v, invalid)
    else add_poll c draw actor (sanitize_text f f.poll_question_max_len question)
        (sanitize_all f options) v

unfoldable pub close_poll_by : Call → ℕ → Actor → SocialService → Step
close_poll_by c i actor v = logged_if c poll_target i was_closed actor v (close_poll i c.at v.store)

abbrev pub voted : Call → ℕ → ℕ → SocialService → SocialStore × Bool → Step
voted c poll option v (s, true) =
    (emit (poll_vote_cast poll option) (count add_vote_cast (with_store v s)), done)
voted c poll option v (s, false) = refuse add_vote_rejected already_voted v

abbrev pub vote_in : SocialConfig → Call → ℕ → ℕ → Option PollRow → SocialService → Step
vote_in f c poll option none v = refuse add_vote_rejected not_found v
vote_in f c poll option (some p) v =
    if not (is_open p)
    then refuse add_vote_rejected is_closed v
    else if not (option_belongs_to_poll poll option v.store)
    then refuse add_vote_rejected not_found v
    else voted c poll option v
        (insert_vote poll (f.hash_session_key c.session_token) option c.at v.store)

unfoldable pub cast_vote : SocialConfig → Call → ℕ → ℕ → SocialService → Step
cast_vote f c poll option v =
    limited f c add_vote_rejected (λ w. vote_in f c poll option (get_poll poll w.store) w) v

-- The count of an option of a poll.
unfoldable pub poll_results : ℕ → ℕ → SocialService → ℕ
poll_results poll option v = count_votes poll option v.store.poll_votes

abbrev pub new_checkin : SocialConfig → Call → Option ℕ → Option Text → Option ℕ → Checkin
new_checkin f c person label photo = record {
  id = c.id;
  person_id = person;
  label = label;
  photo_recording_id = photo;
  session_key_hash = f.hash_session_key c.session_token;
  created_at = c.at;
  deleted_at = none;
}

abbrev pub add_checkin :
    SocialConfig → Call → Option ℕ → Option ℕ → Option (Option Text) → SocialService → Step
add_checkin f c person photo none v = refuse add_checkin_rejected invalid v
add_checkin f c person photo (some label) v = (
  emit (checkin_created c.id person label photo) (
      count add_checkin_created
        (with_store v (insert_checkin (new_checkin f c person label photo) v.store))),
  done,
)

unfoldable pub create_checkin :
    SocialConfig → Call → Option ℕ → Option Text → Option ℕ → SocialService → Step
create_checkin f c person label photo v =
    limited f c add_checkin_rejected
      (add_checkin f c person photo (sanitize_optional_text f f.checkin_label_max_len label)) v

-- A deletion counts and is told of when a row was deleted.
abbrev pub told : TargetKind → ℕ → Step → Step
told kind i (v, done) = (emit (deletion_requested kind i) (count add_deletion v), done)
told kind i (v, o) = (v, o)

abbrev pub owner_key : SocialConfig → Call → Actor → Option String
owner_key f c visitor = some (f.hash_session_key c.session_token)
owner_key f c admin = none

abbrev pub delete_target : SocialConfig → Call → TargetKind → ℕ → Actor → SocialService → Step
delete_target f c guestbook_target i actor v =
    logged_if c guestbook_target i was_deleted actor v
      (soft_delete_guestbook_entry i c.at (owner_key f c actor) v.store)
delete_target f c checkin_target i actor v =
    logged_if c checkin_target i was_deleted actor v
      (soft_delete_checkin i c.at (owner_key f c actor) v.store)
delete_target f c poll_target i actor v = (v, unsupported_target)

abbrev pub same_metrics : SocialMetrics → SocialMetrics
same_metrics m = m

abbrev pub delete_limited : SocialConfig → Call → TargetKind → ℕ → Actor → SocialService → Step
delete_limited f c kind i visitor v =
    limited f c same_metrics (λ w. told kind i (delete_target f c kind i visitor w)) v
delete_limited f c kind i admin v = told kind i (delete_target f c kind i admin v)

-- A target that is no entry of the guestbook and no check-in is refused before the limit.
unfoldable pub request_deletion :
    SocialConfig → Call → TargetKind → ℕ → Actor → SocialService → Step
request_deletion f c poll_target i actor v = (v, unsupported_target)
request_deletion f c kind i actor v = delete_limited f c kind i actor v
