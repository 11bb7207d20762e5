-- ===== src/Door/Social/Acts.antt =====
-- Everything that visitors and moderators do, and what every step keeps
-- (apps/door-api/src/door_api/social/service.py).
pub mod Votes
pub mod Final
pub mod Owner
use doorboard.Prelude.{
  ℕ, suc, String, Bool, true, false, ◌&&◌, not, Bool-cases, inl, inr, Option, none, some, List, [],
  ◌∷◌, ◌++◌, ◌≡◌, refl, length, ltb, ◌==◌, ==_iff, if◌then◌else◌, Option-cases,
}
use doorboard.Door.Session.Recipients.{Text}
use doorboard.Door.Social.RateLimit.{CompositeRateLimiter, allow_both}
use doorboard.Door.Social.Store.{
  GuestbookEntry, PollRow, PollOption, Vote, Checkin, TargetKind, guestbook_target, poll_target,
  was_created, was_approved, was_deleted, was_closed, checkin_target, LoggedAction, Actor, visitor,
  admin, LogRow, SocialStore, any_where, find_where, is_open, is_vote, update_where, close,
  insert_guestbook_entry, approve_guestbook_entry, soft_delete_guestbook_entry, option_rows,
  insert_poll, get_poll, close_poll, option_belongs_to_poll, insert_vote, insert_checkin,
  soft_delete_checkin, append_moderation_log,
}
use doorboard.Door.Social.Service.{
  SocialConfig, SocialMetrics, SocialEvent, SocialService, Call, Outcome, done, rate_limited,
  invalid, not_found, is_closed, already_voted, unsupported_target, Step, count, refuse, with_store,
  log_moderation, emit, limited, add_entry, add_vote_cast, add_vote_rejected,
  create_guestbook_entry, logged_if, approve_entry, delete_guestbook_entry, add_poll, sanitize_text,
  sanitize_all, numbered_options, create_poll, close_poll_by, voted, vote_in, cast_vote,
  add_checkin, create_checkin, same_metrics, sanitize_optional_text, add_guestbook_limited,
  add_checkin_rejected, owner_key, told, delete_target, delete_limited, request_deletion,
}

pub data Act : Type 0 where
  signs : Call → Text → Option Text → Act
  approves : Call → ℕ → Actor → Act
  removes : Call → ℕ → Actor → Act
  asks : Call → (ℕ → ℕ) → Text → List Text → Actor → Act
  ends : Call → ℕ → Actor → Act
  votes : Call → ℕ → ℕ → Act
  checks_in : Call → Option ℕ → Option Text → Option ℕ → Act
  erases : Call → TargetKind → ℕ → Actor → Act

abbrev pub act : SocialConfig → Act → SocialService → SocialService
act f (signs c text author) v = (create_guestbook_entry f c text author v).0
act f (approves c i actor) v = (approve_entry c i actor v).0
act f (removes c i actor) v = (delete_guestbook_entry c i actor v).0
act f (asks c draw q options actor) v = (create_poll f c draw q options actor v).0
act f (ends c i actor) v = (close_poll_by c i actor v).0
act f (votes c poll option) v = (cast_vote f c poll option v).0
act f (checks_in c person label photo) v = (create_checkin f c person label photo v).0
act f (erases c kind i actor) v = (request_deletion f c kind i actor v).0

abbrev pub act_all : SocialConfig → List Act → SocialService → SocialService
act_all f [] v = v
act_all f (a ∷ more) v = act_all f more (act f a v)

-- The identifier that a new poll draws.
abbrev pub draws_poll : ℕ → Act → Bool
draws_poll i (asks c draw q options actor) = c.id == i
draws_poll i _ = false

-- The vote of a call.
abbrev pub ballot : ℕ → String → ℕ → ℕ → Vote
ballot poll token option at = record {
  poll_id = poll;
  session_token = token;
  option_id = option;
  created_at = at;
}

abbrev pub with_vote : Vote → SocialService → SocialService
with_vote b v =
    count add_vote_cast
      (with_store v (record v.store { poll_votes = v.store.poll_votes ++ b ∷ [] }))

-- A predicate that each of the steps keeps of which the operations consist.
pub record Closed (P : SocialService → Type 0) : Type 0 where
  pub on_limiter :
      (r : CompositeRateLimiter) (v : SocialService) → P v → P (record v { limiter = r })
  pub on_events : (es : List SocialEvent) (v : SocialService) → P v → P (record v { events = es })
  pub on_metrics :
      (m : SocialMetrics) (v : SocialService)
      → m.poll_votes_cast ≡ v.metrics.poll_votes_cast
      → P v
      → P (record v { metrics = m })
  pub on_guestbook :
      (g : List GuestbookEntry) (v : SocialService)
      → P v
      → P (with_store v (record v.store { guestbook = g }))
  pub on_checkins :
      (cs : List Checkin) (v : SocialService)
      → P v
      → P (with_store v (record v.store { checkins = cs }))
  pub on_log :
      (ls : List LogRow) (v : SocialService)
      → P v
      → P (with_store v (record v.store { moderation_log = ls }))
  pub on_close :
      (i at : ℕ) (v : SocialService)
      → P v
      → P (
          with_store v (record v.store {
            polls = update_where (λ p. p.id == i && is_open p) (close at) v.store.polls;
          }))
  pub on_vote :
      (poll : ℕ) (token : String) (option at : ℕ) (p : PollRow) (v : SocialService)
      → find_where (λ q. q.id == poll) v.store.polls ≡ some p
      → is_open p ≡ true
      → any_where (λ o. o.id == option && o.poll_id == poll) v.store.poll_options ≡ true
      → any_where (is_vote poll token) v.store.poll_votes ≡ false
      → P v
      → P (with_vote (ballot poll token option at) v)

-- A new poll.
abbrev pub OnPoll : (SocialService → Type 0) → ℕ → Type 0
OnPoll P i =
    (question : Text) (options : List (ℕ × Text)) (at : ℕ) (v : SocialService)
    → P v
    → P (with_store v (insert_poll i question options at v.store))

module _ (f : SocialConfig) (P : SocialService → Type 0) (c : Closed P) where
  limited_keeps :
      (q : Call) (m : SocialMetrics → SocialMetrics) (next : SocialService → Step)
      (v : SocialService)
      → ((k : SocialMetrics) → (m k).poll_votes_cast ≡ k.poll_votes_cast)
      → ((w : SocialService) → P w → P (next w).0)
      → P v
      → P (limited f q m next v).0
  limited_keeps q m next v k n h =
      let r = allow_both (f.hash_ip q.ip) q.session_token q.now v.limiter in
      let w = record v { limiter = r.0 } in
      elim (Bool-cases r.1) [
        | inl e ↦ rw e (n w (c.on_limiter r.0 v h))
        | inr e ↦ rw e (c.on_metrics (m v.metrics) w (k v.metrics) (c.on_limiter r.0 v h))
      ]

  log_keeps :
      (q : Call) (kind : TargetKind) (i : ℕ) (action : LoggedAction) (actor : Actor)
      (v : SocialService)
      → P v
      → P (log_moderation q kind i action actor v)
  unfolding append_moderation_log
  log_keeps q kind i action actor v h = c.on_log _ v h

  logged_keeps :
      (q : Call) (kind : TargetKind) (i : ℕ) (action : LoggedAction) (actor : Actor)
      (v : SocialService) (o : SocialStore × Bool)
      → P (with_store v o.0)
      → P (logged_if q kind i action actor v o).0
  logged_keeps q kind i action actor v (s, true) h =
      log_keeps q kind i action actor (with_store v s) h
  logged_keeps q kind i action actor v (s, false) h = h

  add_entry_keeps :
      (q : Call) (text : Option Text) (author : Option (Option Text)) (v : SocialService)
      → P v
      → P (add_entry f q text author v).0
  unfolding insert_guestbook_entry append_moderation_log
  add_entry_keeps q none author v h = c.on_metrics _ v refl h
  add_entry_keeps q (some text) none v h = c.on_metrics _ v refl h
  add_entry_keeps q (some text) (some author) v h =
      c.on_events _ _ (c.on_log _ _ (c.on_metrics _ _ refl (c.on_guestbook _ v h)))

  add_poll_keeps :
      (q : Call) (draw : ℕ → ℕ) (actor : Actor) (question : Option Text)
      (options : Option (List Text)) (v : SocialService)
      → OnPoll P q.id
      → P v
      → P (add_poll q draw actor question options v).0
  add_poll_keeps q draw actor (some question) (some options) v k h =
      log_keeps q poll_target q.id was_created actor _
        (k question (numbered_options draw 0 options) q.at v h)
  add_poll_keeps q draw actor (some question) none v k h = h
  add_poll_keeps q draw actor none options v k h = h

  create_poll_keeps :
      (q : Call) (draw : ℕ → ℕ) (question : Text) (options : List Text) (actor : Actor)
      (v : SocialService)
      → OnPoll P q.id
      → P v
      → P (create_poll f q draw question options actor v).0
  unfolding create_poll
  create_poll_keeps q draw question options actor v k h =
      elim (Bool-cases (ltb (length options) 2)) [
        | inl e ↦ rw e h
        | inr e ↦ rw e (
            add_poll_keeps q draw actor (sanitize_text f f.poll_question_max_len question)
              (sanitize_all f options) v k h)
      ]

  vote_in_keeps :
      (q : Call) (poll option : ℕ) (p : Option PollRow) (v : SocialService)
      → find_where (λ r. r.id == poll) v.store.polls ≡ p
      → P v
      → P (vote_in f q poll option p v).0
  unfolding option_belongs_to_poll insert_vote
  vote_in_keeps q poll option none v e h = c.on_metrics _ v refl h
  vote_in_keeps q poll option (some p) v e h = elim (Bool-cases (is_open p)) [
    | inr n ↦ rw n (c.on_metrics (add_vote_rejected v.metrics) v refl h)
    | inl o ↦
        rw o
          (elim (Bool-cases
            (any_where (λ k. k.id == option && k.poll_id == poll) v.store.poll_options)) [
              | inr n ↦ rw n (c.on_metrics (add_vote_rejected v.metrics) v refl h)
              | inl b ↦
                  rw b
                    (elim (Bool-cases (
                      any_where (is_vote poll (f.hash_session_key q.session_token))
                        v.store.poll_votes)) [
                          | inl t ↦ rw t (c.on_metrics (add_vote_rejected v.metrics) v refl h)
                          | inr t ↦ rw t (
                              c.on_events _ _ (
                                c.on_vote poll (f.hash_session_key q.session_token) option q.at p v
                                  e o b t h))
                        ])
            ])
  ]

  add_checkin_keeps :
      (q : Call) (person photo : Option ℕ) (label : Option (Option Text)) (v : SocialService)
      → P v
      → P (add_checkin f q person photo label v).0
  unfolding insert_checkin
  add_checkin_keeps q person photo none v h = c.on_metrics _ v refl h
  add_checkin_keeps q person photo (some label) v h =
      c.on_events _ _ (c.on_metrics _ _ refl (c.on_checkins _ v h))

  told_keeps : (kind : TargetKind) (i : ℕ) (o : Step) → P o.0 → P (told kind i o).0
  told_keeps kind i (v, done) h = c.on_events _ _ (c.on_metrics _ v refl h)
  told_keeps kind i (v, _) h = h

  delete_target_keeps :
      (q : Call) (kind : TargetKind) (i : ℕ) (actor : Actor) (v : SocialService)
      → P v
      → P (delete_target f q kind i actor v).0
  unfolding soft_delete_guestbook_entry soft_delete_checkin
  delete_target_keeps q guestbook_target i actor v h =
      logged_keeps q guestbook_target i was_deleted actor v
        (soft_delete_guestbook_entry i q.at (owner_key f q actor) v.store)
        (c.on_guestbook
          (soft_delete_guestbook_entry i q.at (owner_key f q actor) v.store).0.guestbook v h)
  delete_target_keeps q checkin_target i actor v h =
      logged_keeps q checkin_target i was_deleted actor v
        (soft_delete_checkin i q.at (owner_key f q actor) v.store)
        (c.on_checkins (soft_delete_checkin i q.at (owner_key f q actor) v.store).0.checkins v h)
  delete_target_keeps q poll_target i actor v h = h

  delete_limited_keeps :
      (q : Call) (kind : TargetKind) (i : ℕ) (actor : Actor) (v : SocialService)
      → P v
      → P (delete_limited f q kind i actor v).0
  delete_limited_keeps q kind i visitor v h =
      limited_keeps q same_metrics (λ w. told kind i (delete_target f q kind i visitor w)) v
        (λ k. refl) (λ w hw. told_keeps kind i _ (delete_target_keeps q kind i visitor w hw)) h
  delete_limited_keeps q kind i admin v h =
      told_keeps kind i _ (delete_target_keeps q kind i admin v h)

  pub act_keeps :
      (a : Act) (v : SocialService)
      → ((i : ℕ) → draws_poll i a ≡ true → OnPoll P i)
      → P v
      → P (act f a v)
  unfolding create_guestbook_entry approve_entry approve_guestbook_entry delete_guestbook_entry
      soft_delete_guestbook_entry close_poll_by close_poll cast_vote get_poll create_checkin
      request_deletion
  act_keeps (signs q text author) v k h =
      let t = sanitize_text f f.guestbook_text_max_len text in
      let a = sanitize_optional_text f f.guestbook_author_label_max_len author in
      limited_keeps q add_guestbook_limited (add_entry f q t a) v (λ k. refl)
        (add_entry_keeps q t a) h
  act_keeps (approves q i actor) v k h =
      logged_keeps q guestbook_target i was_approved actor v (approve_guestbook_entry i v.store)
        (c.on_guestbook (approve_guestbook_entry i v.store).0.guestbook v h)
  act_keeps (removes q i actor) v k h =
      logged_keeps q guestbook_target i was_deleted actor v
        (soft_delete_guestbook_entry i q.at none v.store)
        (c.on_guestbook (soft_delete_guestbook_entry i q.at none v.store).0.guestbook v h)
  act_keeps (asks q draw question options actor) v k h =
      create_poll_keeps q draw question options actor v (k q.id ((==_iff q.id q.id).1 refl)) h
  act_keeps (ends q i actor) v k h =
      logged_keeps q poll_target i was_closed actor v (close_poll i q.at v.store)
        (c.on_close i q.at v h)
  act_keeps (votes q poll option) v k h =
      limited_keeps q add_vote_rejected (λ w. vote_in f q poll option (get_poll poll w.store) w) v
        (λ k. refl) (λ w hw. vote_in_keeps q poll option (get_poll poll w.store) w refl hw) h
  act_keeps (checks_in q person label photo) v k h =
      let t = sanitize_optional_text f f.checkin_label_max_len label in
      limited_keeps q add_checkin_rejected (add_checkin f q person photo t) v (λ k. refl)
        (add_checkin_keeps q person photo t) h
  act_keeps (erases q guestbook_target i actor) v k h =
      delete_limited_keeps q guestbook_target i actor v h
  act_keeps (erases q checkin_target i actor) v k h =
      delete_limited_keeps q checkin_target i actor v h
  act_keeps (erases q poll_target i actor) v k h = h
