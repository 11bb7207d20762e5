-- ===== src/Door/Session/Outcome.antt =====
-- The outcome that `session.ended` reports (`_outcome_for_trigger` and `_outcome_for_end` of
-- apps/door-api/src/door_api/session.py).
use doorboard.Prelude.{
  String, Bool, ◌&&◌, not, Option, none, some, List, [], ◌∷◌, str_eq, get_or, if◌then◌else◌,
}
use doorboard.Contracts.{SessionState, video_message_offered, state_eq}
use doorboard.Door.Session.Types.{
  SessionOutcome, answered, unanswered_timeout, message_left, abandoned, reset,
}

-- `mapping`
abbrev pub outcomes : List (String × SessionOutcome)
outcomes =
    ("auto:saved_to_end", message_left)
    ∷ ("admin:reset", reset)
    ∷ ("timeout:ring", unanswered_timeout)
    ∷ ("door.answered", answered)
    ∷ ("door.contact_changed", answered)
    ∷ ("owner:answered", answered)
    ∷ ("auto:answered_to_end", answered)
    ∷ ("visitor:end", abandoned)
    ∷ ("visitor:discard", abandoned)
    ∷ ("timeout:review", abandoned)
    ∷ ("timeout:max_recording", abandoned)
    ∷ ("timeout:inactivity", abandoned)
    ∷ ("vision.identity_expired", abandoned)
    ∷ []

unfoldable pub find_outcome : String → List (String × SessionOutcome) → Option SessionOutcome
find_outcome t [] = none
find_outcome t ((k, o) ∷ rest) = if str_eq k t then some o else find_outcome t rest

-- An unknown trigger is logged and reads as abandoned.
unfoldable pub outcome_for_trigger : String → SessionOutcome
unfolding find_outcome
outcome_for_trigger t = get_or (find_outcome t outcomes) abandoned

unfoldable pub outcome_for_end : Bool → SessionState → String → SessionOutcome
outcome_for_end was_answered from_state trigger =
    if state_eq from_state video_message_offered
      && str_eq trigger "timeout:inactivity"
      && not was_answered
    then unanswered_timeout
    else outcome_for_trigger trigger
