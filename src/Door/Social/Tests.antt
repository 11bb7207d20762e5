-- ===== src/Door/Social/Tests.antt =====
-- The theorems of the social features at concrete inputs (apps/door-api/src/door_api/social).
use doorboard.Prelude.{ℕ, ◌+◌, ◌≤◌, ◌≡◌, refl, String, true, ltb, none, some, List, [], ◌∷◌, arith}
use doorboard.Door.Social.RateLimit.{RateLimiter, allow}
use doorboard.Door.Social.RateLimit.Window.{allowed, allow-limited}
use doorboard.Door.Social.Store.{
  admin, visitor, approved, guestbook_target, poll_closed, empty_store,
}
use doorboard.Door.Social.Service.{SocialConfig, SocialService, Call, request_deletion}
use doorboard.Door.Social.Acts.{Act, asks, ends, votes, act_all}
use doorboard.Door.Social.Acts.Votes.{Tallied, act_all-Tallied}
use doorboard.Door.Social.Acts.Owner.{was_refused, request_deletion-owner}

abbrev limiter : RateLimiter
limiter = record { limit = 2; window_s = 60; hits = [] }

allow-limited_example : allowed "ip" (100 ∷ 110 ∷ 120 ∷ 160 ∷ []) limiter ≤ 2
allow-limited_example =
    allow-limited "ip" 100 160 (100 ∷ 110 ∷ 120 ∷ 160 ∷ []) limiter (omega arith) (
      (omega arith, omega arith),
      ((omega arith, omega arith), ((omega arith, omega arith), ((omega arith, omega arith), tt))),
    )

-- A refused attempt counts too: 165 is refused for 110 and 120, of which 120 was refused itself.
flooded : allowed "ip" (100 ∷ 110 ∷ 120 ∷ 165 ∷ 200 ∷ []) limiter ≡ 3
unfolding allow
flooded = refl

abbrev config : SocialConfig
config = record {
  is_control = λ c. ltb c 32;
  hash_ip = λ s. s;
  hash_session_key = λ s. s;
  guestbook_text_max_len = 280;
  guestbook_author_label_max_len = 40;
  checkin_label_max_len = 40;
  poll_question_max_len = 200;
  poll_option_max_len = 80;
}

abbrev service : SocialService
service = record {
  store = empty_store;
  limiter = record { per_ip = limiter; per_session = limiter };
  metrics = record {
    guestbook_created = 0;
    guestbook_rejected_invalid = 0;
    guestbook_rejected_rate_limited = 0;
    poll_votes_cast = 0;
    poll_votes_rejected = 0;
    checkins_created = 0;
    checkins_rejected = 0;
    deletion_requests = 0;
  };
  events = [];
}

abbrev call : ℕ → ℕ → String → Call
call now id token = record {
  now = now;
  at = now;
  id = id;
  log_id = id + 1;
  ip = "10.0.0.7";
  session_token = token;
}

abbrev poll_acts : List Act
poll_acts =
    asks (call 1 10 "x") (λ k. k + 20) (65 ∷ []) ((66 ∷ []) ∷ (67 ∷ []) ∷ []) admin
    ∷ votes (call 100 0 "ann") 10 20
    ∷ votes (call 200 0 "ann") 10 21
    ∷ votes (call 300 0 "bob") 10 20
    ∷ []

act_all-Tallied_example : Tallied (act_all config poll_acts service)
act_all-Tallied_example =
    act_all-Tallied config poll_acts service (record { once = tt; counted = refl; offered = tt })

abbrev shut : SocialService
shut = record service {
  store = record empty_store {
    polls =
        record {
          id = 10;
          question = 65 ∷ [];
          status = poll_closed;
          created_at = 1;
          closed_at = some 5;
        }
        ∷ [];
    poll_votes =
        record { poll_id = 10; session_token = "ann"; option_id = 20; created_at = 3 } ∷ [];
  };
}

abbrev late_acts : List Act
late_acts =
    votes (call 100 0 "bob") 10 20
    ∷ ends (call 101 0 "x") 10 admin
    ∷ asks (call 102 11 "x") (λ k. k + 30) (65 ∷ []) ((66 ∷ []) ∷ (67 ∷ []) ∷ []) admin
    ∷ []

abbrev signed : SocialService
signed = record service {
  store = record empty_store {
    guestbook =
        record {
          id = 4;
          text = 72 ∷ [];
          author_label = none;
          status = approved;
          ip_hash = "h";
          session_key_hash = "ann";
          created_at = 1;
          deleted_at = none;
        }
        ∷ [];
  };
}

-- Bob asks to delete what Ann wrote.
request_deletion-owner_example :
    ((request_deletion config (call 100 0 "bob") guestbook_target 4 visitor signed).0.store
      ≡ signed.store)
    × ((request_deletion config (call 100 0 "bob") guestbook_target 4 visitor signed).0.events
        ≡ signed.events)
    × (was_refused (request_deletion config (call 100 0 "bob") guestbook_target 4 visitor signed).1
        ≡ true)
request_deletion-owner_example =
    request_deletion-owner config (call 100 0 "bob") 4 guestbook_target signed refl
