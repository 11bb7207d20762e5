-- ===== src/Door/Session/Expiry.antt =====
-- Left alone, a session expires: its timers lead it to IDLE, one after the other
-- (apps/door-api/src/door_api/session.py).
use doorboard.Prelude.{
  ℕ, zero, suc, ◌+◌, ◌-◌, ◌≤◌, ◌≡◌, refl, ap, ◌∙◌, true, false, Option-cases, inl, inr, none, some,
  arith,
}
use doorboard.Contracts.{
  SessionState, idle, approach_detected, identity_cached, button_pressed, visitor_mode, ringing,
  unanswered_timeout, video_message_offered, video_message_recording, video_message_review,
  video_message_saved, session_end, state_eq, legal,
}
use doorboard.Contracts
use doorboard.Door.Session.Types.{SessionConfig, Draw, Machine, plain, returned}
use doorboard.Door.Session.Timers.{Plan, plan_for}
use doorboard.Door.Session.Handlers.{disarm, fire}
use doorboard.Door.Session.Effects.{transition-HasEffect}
use doorboard.Door.Session.Invariant.{IsValid, IsTimed}
use doorboard.Door.Session.Invariant.Steps.{legal-IsValid}
use doorboard.Door.Session.Invariant.Timer.{
  plan-legal, timed-IsPlanned, fire-eq-transition, disarm_rest,
}
use doorboard.Door.Session.Invariant.Runs.{fire-IsValid}

-- How many timers stand between a state and IDLE.
abbrev pub timers_left : SessionState → ℕ
timers_left idle = 0
timers_left button_pressed = 0
timers_left approach_detected = 1
timers_left identity_cached = 1
timers_left session_end = 1
timers_left Contracts.answered = 2
timers_left video_message_offered = 2
timers_left video_message_review = 2
timers_left video_message_saved = 2
timers_left unanswered_timeout = 3
timers_left video_message_recording = 3
timers_left ringing = 4
timers_left visitor_mode = 5

-- The longest that it can take, by the settings.
abbrev pub time_left : SessionConfig → SessionState → ℕ
time_left c idle = 0
time_left c button_pressed = 0
time_left c approach_detected = c.approach_timeout
time_left c identity_cached = c.approach_timeout
time_left c session_end = c.session_end_linger
time_left c Contracts.answered = c.offer_delay + c.session_end_linger
time_left c video_message_offered = c.inactivity_timeout + c.session_end_linger
time_left c video_message_review = c.review_timeout + c.session_end_linger
time_left c video_message_saved = c.saved_linger + c.session_end_linger
time_left c unanswered_timeout = c.offer_delay + c.inactivity_timeout + c.session_end_linger
time_left c video_message_recording = c.max_recording + c.review_timeout + c.session_end_linger
time_left c ringing = c.ring_timeout + c.offer_delay + c.inactivity_timeout + c.session_end_linger
time_left c visitor_mode =
    c.visitor_mode_auto_ring + c.ring_timeout + c.offer_delay + c.inactivity_timeout
    + c.session_end_linger

plan_counts :
    (c : SessionConfig) (s : SessionState) {p : Plan}
    → plan_for c s ≡ some p
    → (timers_left s ≡ suc (timers_left p.target))
      × (time_left c s ≡ p.timeout + time_left c p.target)
      × (state_eq p.target button_pressed ≡ false)
unfolding plan_for
plan_counts c s h = ground arith

no_plan :
    (c : SessionConfig) (s : SessionState)
    → plan_for c s ≡ none
    → state_eq s button_pressed ≡ false
    → s ≡ idle
unfolding plan_for
no_plan c s h e = ground arith

at_most_five : (s : SessionState) → timers_left s ≤ 5
at_most_five s = ground arith

idle_of_none_left :
    (s : SessionState) → timers_left s ≡ 0 → state_eq s button_pressed ≡ false → s ≡ idle
idle_of_none_left s h e = ground arith

delay_le :
    (c : SessionConfig) (m : Machine) {p : Plan}
    → IsTimed c m
    → plan_for c m.state ≡ some p
    → m.timer.delay ≤ p.timeout
delay_le c m {p} (e, t) h =
    let waits : m.timer.delay ≡ p.timeout - e = ap (λ x. x.delay) t ∙ rw h in omega arith

module _ (c : SessionConfig) (env : ℕ → Draw) where
  -- An expiring timer is a transition that is never refused.
  pub fire_target :
      (m : Machine) {p : Plan}
      → IsValid c m
      → plan_for c m.state ≡ some p
      → ((fire c env m).0.state ≡ p.target)
        × ((fire c env m).1 ≡ returned true)
        × (m.timer.delay ≤ p.timeout)
  unfolding disarm
  fire_target m {p} v e =
      let (ids, boxes, edge) = disarm_rest c env m p.target v (plan-legal c m.state e) in
      let r = plain p.target p.trigger in
      let same = fire-eq-transition c env m (timed-IsPlanned c m v.timed e) in
      let eff = transition-HasEffect c env r (disarm c env m) ids boxes edge in
      (
        ap (λ x. x.0.state) same ∙ eff.state,
        ap (λ x. x.1) same ∙ (legal-IsValid c env r (disarm c env m) ids boxes edge).1,
        delay_le c m v.timed e,
      )

  -- Timer after timer, with nothing else happening, and the time that passes.
  unfoldable pub expire : ℕ → Machine → Machine
  expire zero m = m
  expire (suc n) m = expire n (fire c env m).0

  unfoldable pub waited : ℕ → Machine → ℕ
  waited zero m = 0
  waited (suc n) m = m.timer.delay + waited n (fire c env m).0

  expires :
      (n : ℕ) (m : Machine)
      → IsValid c m
      → state_eq m.state button_pressed ≡ false
      → timers_left m.state ≡ n
      → ((expire n m).state ≡ idle) × (waited n m ≤ time_left c m.state)
  unfolding expire waited
  expires zero m v b h = (idle_of_none_left m.state h b, omega arith)
  expires (suc n) m v b h = elim (Option-cases (plan_for c m.state)) [
    | inl e ↦ absurd (omega (arith, ap timers_left (no_plan c m.state e b)))
    | inr (p, e) ↦
        let (to, _, short) = fire_target m v e in
        let (count, time, other) = plan_counts c m.state e in
        let v' = (fire-IsValid c env m v).0 in
        let rest = expires n (fire c env m).0 v' (rw to other) (rw to (omega (arith, count))) in
        (rest.0, omega (arith, rest.1, ap (time_left c) to))
  ]

  -- A session of a valid machine that is left alone in any state but BUTTON_PRESSED is back in IDLE
  -- after at most five timers, within the sum of the timeouts on its way.
  pub expire-idle :
      (m : Machine)
      → IsValid c m
      → state_eq m.state button_pressed ≡ false
      → ((expire (timers_left m.state) m).state ≡ idle)
        × (timers_left m.state ≤ 5)
        × (waited (timers_left m.state) m ≤ time_left c m.state)
  expire-idle m v b =
      let (end, time) = expires (timers_left m.state) m v b refl in
      (end, at_most_five m.state, time)
