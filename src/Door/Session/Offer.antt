-- ===== src/Door/Session/Offer.antt =====
-- The offer of a message by the touch screen: the session is led there from where it is
-- (`handle_video_message_offer` of apps/door-api/src/door_api/session.py).
use doorboard.Prelude.{
  ℕ, String, ◌≡◌, refl, ◌∙◌, Bool, true, false, ◌⊎◌, inl, inr, Option, none, some, arith,
}
use doorboard.Contracts
use doorboard.Contracts.{
  SessionState, idle, approach_detected, identity_cached, button_pressed, visitor_mode, ringing,
  unanswered_timeout, video_message_offered, video_message_recording, video_message_review,
  video_message_saved, session_end, state_eq, contains, legal,
}
use doorboard.Door.Session.Types.{SessionConfig, touch, Draw, Machine, returned, Called}
use doorboard.Door.Session.Handlers.{
  waiting, rung, offer_after_ring, offer_from_pressed, handle_button_pressed,
  handle_video_message_offer,
}
use doorboard.Door.Session.Invariant.{IsValid}
use doorboard.Door.Session.Press.{Reaches, follow, press-Reaches}
use doorboard.Door.Session.Rungs.{
  hops, stays, offered-eq, after_ring-skip, from_ringing-skip, from_visitor-skip, from_pressed-skip,
  from_after, from_ringing, from_visitor, from_pressed,
}

module _ (c : SessionConfig) (env : ℕ → Draw) where
  offer-eq :
      (trace : Option ℕ) (trigger : String) (m : Machine)
      → contains waiting m.state ≡ true
      → (handle_button_pressed c env trace trigger touch none none m).1 ≡ returned true
      → handle_video_message_offer c env trace trigger m
        ≡ offer_from_pressed c env
            (handle_button_pressed c env trace trigger touch none none m).0
            true
  unfolding handle_video_message_offer rung
  offer-eq trace trigger m e h = rw (e, h) refl

  offer-skip :
      (trace : Option ℕ) (trigger : String) (m : Machine)
      → contains waiting m.state ≡ false
      → handle_video_message_offer c env trace trigger m ≡ offer_from_pressed c env m false
  unfolding handle_video_message_offer rung
  offer-skip trace trigger m e = rw e refl

  -- Below the rungs that a state is under.
  to_visitor-eq :
      (m : Machine) (b : Bool)
      → state_eq m.state button_pressed ≡ false
      → state_eq m.state visitor_mode ≡ false
      → state_eq m.state ringing ≡ false
      → offer_from_pressed c env m b ≡ offer_after_ring c env m b
  to_visitor-eq m b p v r =
      from_pressed-skip c env m b p ∙ from_visitor-skip c env m b v ∙ from_ringing-skip c env m b r

  waiting-offer :
      (trace : Option ℕ) (trigger : String) (m : Machine)
      → IsValid c m
      → contains waiting m.state ≡ true
      → Reaches c m video_message_offered 5 (handle_video_message_offer c env trace trigger m)
  waiting-offer trace trigger m v e =
      let p = press-Reaches c env trace trigger touch none none m v e in
      let pressed = (handle_button_pressed c env trace trigger touch none none m).0 in
      rw
        (offer-eq trace trigger m e p.reply, from_pressed-skip c env pressed true (rw p.state refl))
        (follow c env 2 3 p (from_visitor c env pressed true p.valid p.state))

  Offers : SessionState → Machine → Called → Type 0
  Offers s m x =
      ((n : ℕ) × (hops s ≡ some n) × Reaches c m video_message_offered n x)
      ⊎ ((hops s ≡ none) × (x ≡ (m, returned false)))

  under_way :
      (trace : Option ℕ) (trigger : String) (s : SessionState) (m : Machine) (n : ℕ)
      → IsValid c m
      → m.state ≡ s
      → contains waiting s ≡ false
      → hops s ≡ some n
      → Reaches c m video_message_offered n (offer_from_pressed c env m false)
      → Offers s m (handle_video_message_offer c env trace trigger m)
  unfolding Offers
  under_way trace trigger s m n v e w h p = inl (n, h, rw (offer-skip trace trigger m (rw e w)) p)

  no_way :
      (trace : Option ℕ) (trigger : String) (s : SessionState) (m : Machine)
      → m.state ≡ s
      → hops s ≡ none
      → Offers s m (handle_video_message_offer c env trace trigger m)
  unfolding Offers hops
  no_way trace trigger s m e h = inr (
    h,
    offer-skip trace trigger m (ground arith)
        ∙ to_visitor-eq m false (ground arith) (ground arith) (ground arith)
        ∙ after_ring-skip c env m (ground arith),
  )

  offer_at :
      (trace : Option ℕ) (trigger : String) (s : SessionState) (m : Machine)
      → IsValid c m
      → m.state ≡ s
      → Offers s m (handle_video_message_offer c env trace trigger m)
  unfolding Offers hops
  offer_at t u idle m v e = inl (5, refl, waiting-offer t u m v (rw e refl))
  offer_at t u approach_detected m v e = inl (5, refl, waiting-offer t u m v (rw e refl))
  offer_at t u identity_cached m v e = inl (5, refl, waiting-offer t u m v (rw e refl))
  offer_at t u button_pressed m v e =
      under_way t u button_pressed m 4 v e refl refl (from_pressed c env m false v e)
  offer_at t u visitor_mode m v e =
      under_way t u visitor_mode m 3 v e refl refl
        (rw (from_pressed-skip c env m false (rw e refl)) (from_visitor c env m false v e))
  offer_at t u ringing m v e = under_way t u ringing m 2 v e refl refl (
      rw (from_pressed-skip c env m false (rw e refl), from_visitor-skip c env m false (rw e refl))
        (from_ringing c env m false v e))
  offer_at t u Contracts.answered m v e = under_way t u Contracts.answered m 1 v e refl refl (
      rw (to_visitor-eq m false (rw e refl) (rw e refl) (rw e refl))
        (from_after c env m false v (rw e refl)))
  offer_at t u unanswered_timeout m v e = under_way t u unanswered_timeout m 1 v e refl refl (
      rw (to_visitor-eq m false (rw e refl) (rw e refl) (rw e refl))
        (from_after c env m false v (rw e refl)))
  offer_at t u video_message_offered m v e = under_way t u video_message_offered m 0 v e refl refl (
      rw (to_visitor-eq m false (rw e refl) (rw e refl) (rw e refl), offered-eq c env m false e)
        (stays c env m v e))
  offer_at t u video_message_recording m v e = no_way t u video_message_recording m e refl
  offer_at t u video_message_review m v e = no_way t u video_message_review m e refl
  offer_at t u video_message_saved m v e = no_way t u video_message_saved m e refl
  offer_at t u session_end m v e = no_way t u session_end m e refl

  -- On a valid machine, the offer of a message by the touch screen succeeds in every state up to
  -- VIDEO_MESSAGE_OFFERED and leads there, with no illegal transition, in as many transitions as
  -- `hops` says: five before the bell, then one less in each state. Later in the session it returns
  -- False and changes nothing.
  pub offer-outcome :
      (trace : Option ℕ) (trigger : String) (m : Machine)
      → IsValid c m
      → ((n : ℕ) × (hops m.state ≡ some n)
          × Reaches c m video_message_offered n (handle_video_message_offer c env trace trigger m))
        ⊎ ((hops m.state ≡ none)
            × (handle_video_message_offer c env trace trigger m ≡ (m, returned false)))
  unfolding Offers
  offer-outcome trace trigger m v = offer_at trace trigger m.state m v refl
