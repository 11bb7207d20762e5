-- ===== src/Door/Session/Handlers.antt =====
-- The event handlers of the session machine (apps/door-api/src/door_api/session.py), and the timer
-- that fires.
use doorboard.Prelude.{
  ℕ, ◌+◌, String, Bool, true, false, ◌&&◌, ◌||◌, Option, none, some, List, [], ◌∷◌, str_eq, get_or,
  is_some, if◌then◌else◌,
}
use doorboard.Contracts
use doorboard.Contracts.{
  SessionState, idle, approach_detected, identity_cached, button_pressed, visitor_mode, ringing,
  unanswered_timeout, video_message_offered, video_message_recording, video_message_review,
  video_message_saved, session_end, state_eq, contains,
}
use doorboard.Door.Session.Types.{
  SessionConfig, Entry, touch, Draw, Machine, Request, plain, returned, Called, and_then,
}
use doorboard.Door.Session.Transition.{transition, persist}
use doorboard.Door.Session.Recipients.{Text, normalize_recipients}

-- The three states from which a bell starts.
abbrev pub waiting : List SessionState
waiting = idle ∷ approach_detected ∷ identity_cached ∷ []

-- A field of a machine equals a text.
abbrev pub holds_text : Option String → String → Bool
holds_text none t = false
holds_text (some s) t = str_eq s t

module _ (c : SessionConfig) (env : ℕ → Draw) where
  abbrev go : SessionState → String → Machine → Called
  go s t = transition c env (plain s t)

  abbrev stay : Machine → Called
  stay m = (m, returned false)

  -- Was a profile cached when the bell was pressed?
  abbrev pub cached_profile : Option Bool → Machine → Bool
  cached_profile given m =
      get_or given
        (contains (approach_detected ∷ identity_cached ∷ []) m.state && is_some m.profile_id)

  unfoldable pub handle_button_pressed :
      Option ℕ → String → Entry → Option Bool → Option String → Machine → Called
  handle_button_pressed trace trigger entry had_cached profile m =
      let cached = cached_profile had_cached m in
      let pressed = record (plain button_pressed trigger) {
        trace_id = trace;
        session_entry = some entry;
        profile_id = if cached then profile else none;
        had_cached_profile = some cached;
      } in
      if contains waiting m.state
      then and_then (transition c env pressed m) (λ m' ok.
        if ok then go visitor_mode "auto:button_to_visitor" m' else (m', returned false))
      else stay m

  -- `person_id`, `display_name` and `profile_id` are texts here, never `None`.
  unfoldable pub handle_identity_stable : String → String → String → Option ℕ → Machine → Called
  handle_identity_stable person name profile trace m =
      let seen : SessionState → Option ℕ → Request = λ s t.
        record (plain s "vision.identity_stable") {
          trace_id = t;
          person_id = some person;
          display_name = some name;
          profile_id = some profile;
        } in
      if state_eq m.state idle
      then transition c env (seen approach_detected trace) m
      else if state_eq m.state approach_detected
      then transition c env (seen identity_cached none) m
      else persist c env (record m {
        person_id = some person;
        display_name = some name;
        profile_id = some profile;
      })

  unfoldable pub handle_identity_expired : String → Machine → Called
  handle_identity_expired person m =
      if state_eq m.state identity_cached && holds_text m.person_id person
      then go approach_detected "vision.identity_expired" m
      else if state_eq m.state approach_detected && holds_text m.person_id person
      then go idle "vision.identity_expired" m
      else stay m

  unfoldable pub handle_contact_changed : String → Machine → Called
  handle_contact_changed contact m =
      if str_eq contact "open" && state_eq m.state ringing
      then go Contracts.answered "door.contact_changed:open" m
      else stay m

  unfoldable pub handle_answered : String → Machine → Called
  handle_answered trigger m =
      if state_eq m.state ringing then go Contracts.answered trigger m else stay m

  unfoldable pub handle_unanswered : String → Machine → Called
  handle_unanswered trigger m =
      if state_eq m.state ringing then go unanswered_timeout trigger m else stay m

  unfoldable pub handle_session_end : String → Machine → Called
  handle_session_end trigger m =
      if state_eq m.state idle
      then stay m
      else if state_eq m.state session_end
      then go idle trigger m
      else go session_end trigger m

  -- One rung of `handle_video_message_offer`: `changed = call or changed` where the test holds.
  unfoldable pub rung : Bool → (Machine → Called) → Machine → Bool → Called
  rung test call m changed =
      if test
      then and_then (call m) (λ m' b. (m', returned (b || changed)))
      else (m, returned changed)

  -- The rungs from the last to the first: each goes on with the ones above it in this text.
  unfoldable pub offer_reply : Machine → Bool → Called
  offer_reply m changed =
      (m, returned (if state_eq m.state video_message_offered then true else changed))

  unfoldable pub offer_after_ring : Machine → Bool → Called
  offer_after_ring m changed =
      and_then
        (rung (contains (Contracts.answered ∷ unanswered_timeout ∷ []) m.state)
          (go video_message_offered "doorpad:video_offer") m changed)
        offer_reply

  unfoldable pub offer_from_ringing : Machine → Bool → Called
  offer_from_ringing m changed =
      and_then
        (rung (state_eq m.state ringing) (go unanswered_timeout "doorpad:video_offer_unanswered") m
          changed)
        offer_after_ring

  unfoldable pub offer_from_visitor : Machine → Bool → Called
  offer_from_visitor m changed =
      and_then
        (rung (state_eq m.state visitor_mode) (go ringing "doorpad:video_offer_ring_skip") m
          changed)
        offer_from_ringing

  unfoldable pub offer_from_pressed : Machine → Bool → Called
  offer_from_pressed m changed =
      and_then
        (rung (state_eq m.state button_pressed) (go visitor_mode "auto:touch_to_visitor") m changed)
        offer_from_visitor

  unfoldable pub handle_video_message_offer : Option ℕ → String → Machine → Called
  handle_video_message_offer trace trigger m =
      and_then
        (rung (contains waiting m.state) (handle_button_pressed trace trigger touch none none) m
          false)
        offer_from_pressed

  unfoldable pub handle_video_message_start : Machine → Called
  handle_video_message_start m =
      if state_eq m.state video_message_review
      then go video_message_recording "visitor:rerecord" m
      else if state_eq m.state video_message_offered
      then go video_message_recording "visitor:record_start" m
      else stay m

  unfoldable pub handle_video_message_stop : Machine → Called
  handle_video_message_stop m =
      if state_eq m.state video_message_recording
      then go video_message_review "visitor:record_stop" m
      else stay m

  unfoldable pub handle_video_message_rerecord : Machine → Called
  handle_video_message_rerecord m =
      if state_eq m.state video_message_review
      then go video_message_recording "visitor:rerecord" m
      else stay m

  unfoldable pub handle_video_message_save : Option (List (Option Text)) → Machine → Called
  handle_video_message_save recipients m =
      if state_eq m.state video_message_review
      then transition c env
          (record (plain video_message_saved "visitor:save") {
            recipients = normalize_recipients recipients;
          })
          m
      else stay m

  unfoldable pub handle_video_message_discard : Machine → Called
  handle_video_message_discard m =
      if contains (video_message_review ∷ video_message_recording ∷ video_message_offered ∷ [])
        m.state
      then go session_end "visitor:discard" m
      else stay m

  unfoldable pub handle_admin_reset : Machine → Called
  handle_admin_reset m =
      if state_eq m.state idle
      then stay m
      else if state_eq m.state session_end
      then go idle "admin:reset" m
      else go session_end "admin:reset" m

  -- What the timer's task does first: it is over, and it is counted.
  unfoldable pub disarm : Machine → Machine
  disarm m = record m {
    timer = record m.timer { armed = false };
    metrics = record m.metrics { timer_fires = m.metrics.timer_fires + 1 };
  }

  unfoldable pub fire_at : Option SessionState → String → Machine → Called
  fire_at none trigger m = stay m
  fire_at (some target) trigger m = go target trigger m

  -- `_fire`, when the sleep of an armed timer is over. Its exceptions are logged, so the reply is
  -- of no use to anyone.
  unfoldable pub fire : Machine → Called
  unfolding fire_at
  fire m = if m.timer.armed then fire_at m.timer.target_state m.timer.trigger (disarm m) else stay m
