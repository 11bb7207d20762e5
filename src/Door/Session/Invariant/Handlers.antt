-- ===== src/Door/Session/Invariant/Handlers.antt =====
-- Every handler keeps the invariant and fails no assertion
-- (apps/door-api/src/door_api/session.py).
use doorboard.Prelude.{
  ℕ, String, refl, ◌&&◌, inl, inr, Bool, Bool-cases, true, false, Option, none, List, if◌then◌else◌,
}
use doorboard.Contracts.{
  idle, approach_detected, identity_cached, visitor_mode, video_message_offered,
  video_message_recording, video_message_review, state_eq, contains,
}
use doorboard.Door.Session.Types.{
  SessionConfig, Draw, Machine, Entry, Request, plain, returned, Called,
}
use doorboard.Door.Session.Transition.{transition}
use doorboard.Door.Session.Recipients.{Text}
use doorboard.Door.Session.Handlers.{
  waiting, holds_text, handle_button_pressed, handle_identity_stable, handle_identity_expired,
  handle_contact_changed, handle_answered, handle_unanswered, handle_session_end, rung, offer_reply,
  offer_after_ring, offer_from_ringing, offer_from_visitor, offer_from_pressed,
  handle_video_message_offer, handle_video_message_start, handle_video_message_stop,
  handle_video_message_rerecord, handle_video_message_save, handle_video_message_discard,
  handle_admin_reset,
}
use doorboard.Door.Session.Invariant.Steps.{
  Stable, Holds, Succeeds, succeed, transition-Succeeds, persist-Succeeds, Succeeds-and_then,
}

module _ (c : SessionConfig) (env : ℕ → Draw) (Q : Machine → Type 0) (stable : Stable c env Q) where
  -- One test in front of a transition, and two.
  when-Succeeds :
      (b : Bool) (r : Request) (m : Machine)
      → Holds c Q m
      → Succeeds c Q (if b then transition c env r m else (m, returned false))
  when-Succeeds true r m v = transition-Succeeds c env Q stable r m v
  when-Succeeds false r m v = succeed m false v

  either-Succeeds :
      (a b : Bool) (r s : Request) (m : Machine)
      → Holds c Q m
      → Succeeds c Q (
          if a
          then transition c env r m
          else if b
          then transition c env s m
          else (m, returned false))
  either-Succeeds true b r s m v = transition-Succeeds c env Q stable r m v
  either-Succeeds false b r s m v = when-Succeeds b s m v

  unless-Succeeds :
      (a b : Bool) (r s : Request) (m : Machine)
      → Holds c Q m
      → Succeeds c Q (
          if a
          then (m, returned false)
          else if b
          then transition c env r m
          else transition c env s m)
  unless-Succeeds true b r s m v = succeed m false v
  unless-Succeeds false true r s m v = transition-Succeeds c env Q stable r m v
  unless-Succeeds false false r s m v = transition-Succeeds c env Q stable s m v

  pub button_pressed-Succeeds :
      (t : Option ℕ) (s : String) (e : Entry) (h : Option Bool) (p : Option String) (m : Machine)
      → Holds c Q m
      → Succeeds c Q (handle_button_pressed c env t s e h p m)
  unfolding handle_button_pressed
  button_pressed-Succeeds t s e h p m v = elim (Bool-cases (contains waiting m.state)) [
    | inl e ↦ rw e (
        Succeeds-and_then c env Q stable (transition c env _ m) _
          (transition-Succeeds c env Q stable _ m v)
          (λ m' b v'. when-Succeeds b (plain visitor_mode "auto:button_to_visitor") m' v'))
    | inr e ↦ rw e (succeed m false v)
  ]

  pub identity_stable-Succeeds :
      (a b d : String) (t : Option ℕ) (m : Machine)
      → Holds c Q m
      → Succeeds c Q (handle_identity_stable c env a b d t m)
  unfolding handle_identity_stable
  identity_stable-Succeeds a b d t m v = elim (Bool-cases (state_eq m.state idle)) [
    | inl e ↦ rw e (transition-Succeeds c env Q stable _ m v)
    | inr active ↦ rw active (elim (Bool-cases (state_eq m.state approach_detected)) [
      | inl e ↦ rw e (transition-Succeeds c env Q stable _ m v)
      | inr e ↦ rw e (
          persist-Succeeds c env Q stable _ v.valid.ids active v.valid.timed v.valid.outboxes
            (stable.same m _ refl refl refl refl v.kept))
    ])
  ]

  pub identity_expired-Succeeds :
      (p : String) (m : Machine) → Holds c Q m → Succeeds c Q (handle_identity_expired c env p m)
  unfolding handle_identity_expired
  identity_expired-Succeeds p m v =
      either-Succeeds (state_eq m.state identity_cached && holds_text m.person_id p)
        (state_eq m.state approach_detected && holds_text m.person_id p)
        (plain approach_detected "vision.identity_expired") (plain idle "vision.identity_expired") m
        v

  pub contact_changed-Succeeds :
      (s : String) (m : Machine) → Holds c Q m → Succeeds c Q (handle_contact_changed c env s m)
  unfolding handle_contact_changed
  contact_changed-Succeeds s m v = when-Succeeds _ _ m v

  pub answered-Succeeds :
      (t : String) (m : Machine) → Holds c Q m → Succeeds c Q (handle_answered c env t m)
  unfolding handle_answered
  answered-Succeeds t m v = when-Succeeds _ _ m v

  pub unanswered-Succeeds :
      (t : String) (m : Machine) → Holds c Q m → Succeeds c Q (handle_unanswered c env t m)
  unfolding handle_unanswered
  unanswered-Succeeds t m v = when-Succeeds _ _ m v

  pub session_end-Succeeds :
      (t : String) (m : Machine) → Holds c Q m → Succeeds c Q (handle_session_end c env t m)
  unfolding handle_session_end
  session_end-Succeeds t m v = unless-Succeeds _ _ _ _ m v

  rung-Succeeds :
      (test : Bool) (call : Machine → Called) (m : Machine) (changed : Bool)
      → ((m : Machine) → Holds c Q m → Succeeds c Q (call m))
      → Holds c Q m
      → Succeeds c Q (rung c env test call m changed)
  unfolding rung
  rung-Succeeds true call m changed h v =
      Succeeds-and_then c env Q stable (call m) _ (h m v) (λ m' b v'. succeed m' _ v')
  rung-Succeeds false call m changed h v = succeed m changed v

  offer_reply-Succeeds :
      (m : Machine) (b : Bool) → Holds c Q m → Succeeds c Q (offer_reply c env m b)
  unfolding offer_reply
  offer_reply-Succeeds m b v = succeed m _ v

  offer_after_ring-Succeeds :
      (m : Machine) (b : Bool) → Holds c Q m → Succeeds c Q (offer_after_ring c env m b)
  unfolding offer_after_ring
  offer_after_ring-Succeeds m b v =
      Succeeds-and_then c env Q stable (rung c env _ _ m b) (offer_reply c env)
        (rung-Succeeds _ _ m b (transition-Succeeds c env Q stable _) v) offer_reply-Succeeds

  offer_from_ringing-Succeeds :
      (m : Machine) (b : Bool) → Holds c Q m → Succeeds c Q (offer_from_ringing c env m b)
  unfolding offer_from_ringing
  offer_from_ringing-Succeeds m b v =
      Succeeds-and_then c env Q stable (rung c env _ _ m b) (offer_after_ring c env)
        (rung-Succeeds _ _ m b (transition-Succeeds c env Q stable _) v) offer_after_ring-Succeeds

  offer_from_visitor-Succeeds :
      (m : Machine) (b : Bool) → Holds c Q m → Succeeds c Q (offer_from_visitor c env m b)
  unfolding offer_from_visitor
  offer_from_visitor-Succeeds m b v =
      Succeeds-and_then c env Q stable (rung c env _ _ m b) (offer_from_ringing c env)
        (rung-Succeeds _ _ m b (transition-Succeeds c env Q stable _) v) offer_from_ringing-Succeeds

  offer_from_pressed-Succeeds :
      (m : Machine) (b : Bool) → Holds c Q m → Succeeds c Q (offer_from_pressed c env m b)
  unfolding offer_from_pressed
  offer_from_pressed-Succeeds m b v =
      Succeeds-and_then c env Q stable (rung c env _ _ m b) (offer_from_visitor c env)
        (rung-Succeeds _ _ m b (transition-Succeeds c env Q stable _) v) offer_from_visitor-Succeeds

  pub video_message_offer-Succeeds :
      (t : Option ℕ) (s : String) (m : Machine)
      → Holds c Q m
      → Succeeds c Q (handle_video_message_offer c env t s m)
  unfolding handle_video_message_offer
  video_message_offer-Succeeds t s m v =
      Succeeds-and_then c env Q stable (rung c env _ _ m false) (offer_from_pressed c env)
        (rung-Succeeds _ _ m false (button_pressed-Succeeds t s _ none none) v)
        offer_from_pressed-Succeeds

  pub video_message_start-Succeeds :
      (m : Machine) → Holds c Q m → Succeeds c Q (handle_video_message_start c env m)
  unfolding handle_video_message_start
  video_message_start-Succeeds m v =
      either-Succeeds (state_eq m.state video_message_review)
        (state_eq m.state video_message_offered) (plain video_message_recording "visitor:rerecord")
        (plain video_message_recording "visitor:record_start") m v

  pub video_message_stop-Succeeds :
      (m : Machine) → Holds c Q m → Succeeds c Q (handle_video_message_stop c env m)
  unfolding handle_video_message_stop
  video_message_stop-Succeeds m v = when-Succeeds _ _ m v

  pub video_message_rerecord-Succeeds :
      (m : Machine) → Holds c Q m → Succeeds c Q (handle_video_message_rerecord c env m)
  unfolding handle_video_message_rerecord
  video_message_rerecord-Succeeds m v = when-Succeeds _ _ m v

  pub video_message_save-Succeeds :
      (rs : Option (List (Option Text))) (m : Machine)
      → Holds c Q m
      → Succeeds c Q (handle_video_message_save c env rs m)
  unfolding handle_video_message_save
  video_message_save-Succeeds rs m v = when-Succeeds _ _ m v

  pub video_message_discard-Succeeds :
      (m : Machine) → Holds c Q m → Succeeds c Q (handle_video_message_discard c env m)
  unfolding handle_video_message_discard
  video_message_discard-Succeeds m v = when-Succeeds _ _ m v

  pub admin_reset-Succeeds : (m : Machine) → Holds c Q m → Succeeds c Q (handle_admin_reset c env m)
  unfolding handle_admin_reset
  admin_reset-Succeeds m v = unless-Succeeds _ _ _ _ m v
