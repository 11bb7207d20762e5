-- ===== src/Door/Session/Timers.antt =====
-- The timers of the session machine (`_schedule_timer_for_state`, `_start_timer` and
-- `_cancel_timer` of apps/door-api/src/door_api/session.py), with the event loop running.
use doorboard.Prelude.{ℕ, ◌-◌, String, true, Option, none, some}
use doorboard.Contracts
use doorboard.Contracts.{
  SessionState, idle, approach_detected, identity_cached, button_pressed, visitor_mode, ringing,
  unanswered_timeout, video_message_offered, video_message_recording, video_message_review,
  video_message_saved, session_end,
}
use doorboard.Door.Session.Types.{SessionConfig, TimerState, Machine, no_timer}

-- A timeout, the state that it leads to, and its trigger.
pub record Plan : Type 0 where
  pub timeout : ℕ
  pub target : SessionState
  pub trigger : String

abbrev plan : ℕ → SessionState → String → Option Plan
plan n t s = some (record { timeout = n; target = t; trigger = s })

-- The ladder of `_schedule_timer_for_state`, and under it the fallback on the inactivity timeout.
unfoldable pub plan_for : SessionConfig → SessionState → Option Plan
plan_for c idle = none
plan_for c approach_detected = plan c.approach_timeout idle "timeout:approach"
plan_for c identity_cached = plan c.approach_timeout idle "timeout:identity_cached"
plan_for c button_pressed = none
plan_for c visitor_mode = plan c.visitor_mode_auto_ring ringing "auto:visitor_mode_ring"
plan_for c ringing = plan c.ring_timeout unanswered_timeout "timeout:ring"
plan_for c Contracts.answered = plan c.offer_delay session_end "auto:answered_to_end"
plan_for c unanswered_timeout = plan c.offer_delay video_message_offered "auto:unanswered_to_offer"
plan_for c video_message_offered = plan c.inactivity_timeout session_end "timeout:inactivity"
plan_for c video_message_recording =
    plan c.max_recording video_message_review "timeout:max_recording"
plan_for c video_message_review = plan c.review_timeout session_end "timeout:review"
plan_for c video_message_saved = plan c.saved_linger session_end "auto:saved_to_end"
plan_for c session_end = plan c.session_end_linger idle "auto:end_to_idle"

-- `_start_timer`, or nothing where the state has no timer; `elapsed` is the time already spent.
abbrev pub start : Option Plan → ℕ → TimerState → TimerState
start none elapsed t = t
start (some p) elapsed t = record {
  armed = true;
  delay = p.timeout - elapsed;
  target_state = some p.target;
  trigger = p.trigger;
}

-- `_schedule_timer_for_state`
unfoldable pub schedule : SessionConfig → SessionState → ℕ → Machine → Machine
schedule c s elapsed m = record m { timer = start (plan_for c s) elapsed m.timer }

-- `_cancel_timer`
unfoldable pub cancel_timer : Machine → Machine
cancel_timer m = record m { timer = no_timer }
