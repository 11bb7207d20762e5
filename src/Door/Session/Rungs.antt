-- ===== src/Door/Session/Rungs.antt =====
-- The rungs of the offer of a message, each on its own state
-- (`handle_video_message_offer` of apps/door-api/src/door_api/session.py).
use doorboard.Prelude.{ℕ, ◌≡◌, refl, Bool, true, false, Option, none, some, [], ◌∷◌, arith}
use doorboard.Contracts
use doorboard.Contracts.{
  SessionState, idle, approach_detected, identity_cached, button_pressed, visitor_mode, ringing,
  unanswered_timeout, video_message_offered, video_message_recording, video_message_review,
  video_message_saved, session_end, state_eq, contains, legal,
}
use doorboard.Door.Session.Types.{SessionConfig, Draw, Machine, Request, plain, returned, Called}
use doorboard.Door.Session.Transition.{transition}
use doorboard.Door.Session.Handlers.{
  rung, offer_reply, offer_after_ring, offer_from_ringing, offer_from_visitor, offer_from_pressed,
}
use doorboard.Door.Session.Invariant.{IsValid}
use doorboard.Door.Session.Press.{Reaches, step, follow}

abbrev to_offer : Request
to_offer = plain video_message_offered "doorpad:video_offer"

abbrev to_unanswered : Request
to_unanswered = plain unanswered_timeout "doorpad:video_offer_unanswered"

abbrev to_ringing : Request
to_ringing = plain ringing "doorpad:video_offer_ring_skip"

abbrev to_visitor : Request
to_visitor = plain visitor_mode "auto:touch_to_visitor"

-- How many transitions lead from a state to the offer of a message, where the call makes them.
unfoldable pub hops : SessionState → Option ℕ
hops idle = some 5
hops approach_detected = some 5
hops identity_cached = some 5
hops button_pressed = some 4
hops visitor_mode = some 3
hops ringing = some 2
hops Contracts.answered = some 1
hops unanswered_timeout = some 1
hops video_message_offered = some 0
hops video_message_recording = none
hops video_message_review = none
hops video_message_saved = none
hops session_end = none

module _ (c : SessionConfig) (env : ℕ → Draw) where
  pub settled :
      {m : Machine} {s : SessionState} {n : ℕ} {x : Called}
      → Reaches c m s n x
      → Reaches c m s n (x.0, returned true)
  settled p = record {
    valid = p.valid;
    reply = refl;
    state = p.state;
    transitions = p.transitions;
    illegal = p.illegal;
  }

  pub stays :
      (m : Machine)
      → IsValid c m
      → m.state ≡ video_message_offered
      → Reaches c m video_message_offered 0 (m, returned true)
  stays m v e = record {
    valid = v;
    reply = refl;
    state = e;
    transitions = omega arith;
    illegal = refl;
  }

  -- The rungs of the offer, from the last to the first.
  pub offered-eq :
      (m : Machine) (b : Bool)
      → m.state ≡ video_message_offered
      → offer_after_ring c env m b ≡ (m, returned true)
  unfolding offer_after_ring offer_reply rung
  offered-eq m b e = rw e refl

  after_ring-eq :
      (m : Machine) (b : Bool)
      → contains (Contracts.answered ∷ unanswered_timeout ∷ []) m.state ≡ true
      → (transition c env to_offer m).1 ≡ returned true
      → offer_after_ring c env m b ≡ ((transition c env to_offer m).0, returned true)
  unfolding offer_after_ring offer_reply rung
  after_ring-eq m b e h = rw (e, h) (ground arith)

  pub after_ring-skip :
      (m : Machine) → hops m.state ≡ none → offer_after_ring c env m false ≡ (m, returned false)
  unfolding offer_after_ring offer_reply rung hops
  after_ring-skip m e = ground arith

  from_ringing-eq :
      (m : Machine) (b : Bool)
      → state_eq m.state ringing ≡ true
      → (transition c env to_unanswered m).1 ≡ returned true
      → offer_from_ringing c env m b
        ≡ offer_after_ring c env (transition c env to_unanswered m).0 true
  unfolding offer_from_ringing rung
  from_ringing-eq m b e h = rw (e, h) refl

  pub from_ringing-skip :
      (m : Machine) (b : Bool)
      → state_eq m.state ringing ≡ false
      → offer_from_ringing c env m b ≡ offer_after_ring c env m b
  unfolding offer_from_ringing rung
  from_ringing-skip m b e = rw e refl

  from_visitor-eq :
      (m : Machine) (b : Bool)
      → state_eq m.state visitor_mode ≡ true
      → (transition c env to_ringing m).1 ≡ returned true
      → offer_from_visitor c env m b
        ≡ offer_from_ringing c env (transition c env to_ringing m).0 true
  unfolding offer_from_visitor rung
  from_visitor-eq m b e h = rw (e, h) refl

  pub from_visitor-skip :
      (m : Machine) (b : Bool)
      → state_eq m.state visitor_mode ≡ false
      → offer_from_visitor c env m b ≡ offer_from_ringing c env m b
  unfolding offer_from_visitor rung
  from_visitor-skip m b e = rw e refl

  from_pressed-eq :
      (m : Machine) (b : Bool)
      → state_eq m.state button_pressed ≡ true
      → (transition c env to_visitor m).1 ≡ returned true
      → offer_from_pressed c env m b
        ≡ offer_from_visitor c env (transition c env to_visitor m).0 true
  unfolding offer_from_pressed rung
  from_pressed-eq m b e h = rw (e, h) refl

  pub from_pressed-skip :
      (m : Machine) (b : Bool)
      → state_eq m.state button_pressed ≡ false
      → offer_from_pressed c env m b ≡ offer_from_visitor c env m b
  unfolding offer_from_pressed rung
  from_pressed-skip m b e = rw e refl

  -- Each rung on its own state.
  pub from_after :
      (m : Machine) (b : Bool)
      → IsValid c m
      → hops m.state ≡ some 1
      → Reaches c m video_message_offered 1 (offer_after_ring c env m b)
  unfolding hops legal
  from_after m b v e =
      let p = step c env to_offer m v (ground arith) in
      rw (after_ring-eq m b (ground arith) p.reply) (settled p)

  pub from_ringing :
      (m : Machine) (b : Bool)
      → IsValid c m
      → m.state ≡ ringing
      → Reaches c m video_message_offered 2 (offer_from_ringing c env m b)
  unfolding hops legal
  from_ringing m b v e =
      let p = step c env to_unanswered m v (rw e refl) in
      rw (from_ringing-eq m b (rw e refl) p.reply)
        (follow c env 1 1 p (from_after _ true p.valid (rw p.state refl)))

  pub from_visitor :
      (m : Machine) (b : Bool)
      → IsValid c m
      → m.state ≡ visitor_mode
      → Reaches c m video_message_offered 3 (offer_from_visitor c env m b)
  unfolding legal
  from_visitor m b v e =
      let p = step c env to_ringing m v (rw e refl) in
      rw (from_visitor-eq m b (rw e refl) p.reply)
        (follow c env 1 2 p (from_ringing _ true p.valid p.state))

  pub from_pressed :
      (m : Machine) (b : Bool)
      → IsValid c m
      → m.state ≡ button_pressed
      → Reaches c m video_message_offered 4 (offer_from_pressed c env m b)
  unfolding legal
  from_pressed m b v e =
      let p = step c env to_visitor m v (rw e refl) in
      rw (from_pressed-eq m b (rw e refl) p.reply)
        (follow c env 1 3 p (from_visitor _ true p.valid p.state))
