-- ===== src/Door/Session/Press.antt =====
-- A press of the bell, and what a call reaches that makes several transitions
-- (apps/door-api/src/door_api/session.py).
use doorboard.Prelude.{
  ℕ, ◌+◌, String, ◌≡◌, refl, ◌∙◌, Bool, true, false, ◌⊎◌, inl, inr, Bool-cases, Option, none, some,
  arith, if◌then◌else◌,
}
use doorboard.Contracts.{SessionState, button_pressed, visitor_mode, contains, legal}
use doorboard.Door.Session.Types.{
  SessionConfig, Entry, Draw, Machine, Request, plain, returned, Called,
}
use doorboard.Door.Session.Transition.{transition}
use doorboard.Door.Session.Handlers.{waiting, cached_profile, handle_button_pressed}
use doorboard.Door.Session.Effects.{transition-HasEffect}
use doorboard.Door.Session.Invariant.{IsValid}
use doorboard.Door.Session.Invariant.Steps.{legal-IsValid}

-- A call that succeeds, ends in a state and has made some transitions, none of them illegal.
pub record Reaches (c : SessionConfig) (m : Machine) (s : SessionState) (n : ℕ) (x : Called)
    : Type 0 where
  pub valid : IsValid c x.0
  pub reply : x.1 ≡ returned true
  pub state : x.0.state ≡ s
  pub transitions : x.0.metrics.transitions ≡ m.metrics.transitions + n
  pub illegal : x.0.metrics.illegal_transitions ≡ m.metrics.illegal_transitions

module _ (c : SessionConfig) (env : ℕ → Draw) where
  -- One legal transition.
  pub step :
      (r : Request) (m : Machine)
      → IsValid c m
      → legal m.state r.to_state ≡ true
      → Reaches c m r.to_state 1 (transition c env r m)
  step r m v l =
      let (v', ok) = legal-IsValid c env r m v.ids v.outboxes l in
      let eff = transition-HasEffect c env r m v.ids v.outboxes l in
      record {
        valid = v';
        reply = ok;
        state = eff.state;
        transitions = eff.transitions;
        illegal = eff.illegal;
      }

  -- One call after the other.
  pub follow :
      {m : Machine} {s t : SessionState} (n k : ℕ) {x y : Called}
      → Reaches c m s n x
      → Reaches c x.0 t k y
      → Reaches c m t (n + k) y
  follow n k p q = record {
    valid = q.valid;
    reply = q.reply;
    state = q.state;
    transitions = omega (arith, p.transitions, q.transitions);
    illegal = q.illegal ∙ p.illegal;
  }

module _ (c : SessionConfig) (env : ℕ → Draw) where
  press_request : Option ℕ → String → Entry → Option Bool → Option String → Machine → Request
  press_request trace trigger entry had profile m = record (plain button_pressed trigger) {
    trace_id = trace;
    session_entry = some entry;
    profile_id = if cached_profile c env had m then profile else none;
    had_cached_profile = some (cached_profile c env had m);
  }

  press-eq :
      (trace : Option ℕ) (trigger : String) (entry : Entry) (had : Option Bool)
      (profile : Option String) (m : Machine)
      → contains waiting m.state ≡ true
      → (transition c env (press_request trace trigger entry had profile m) m).1 ≡ returned true
      → handle_button_pressed c env trace trigger entry had profile m
        ≡ transition c env
            (plain visitor_mode "auto:button_to_visitor")
            (transition c env (press_request trace trigger entry had profile m) m).0
  unfolding handle_button_pressed press_request
  press-eq trace trigger entry had profile m e h = rw (e, h) refl

  waiting-legal : (s : SessionState) → contains waiting s ≡ true → legal s button_pressed ≡ true
  unfolding legal
  waiting-legal s e = ground arith

  pub press-Reaches :
      (trace : Option ℕ) (trigger : String) (entry : Entry) (had : Option Bool)
      (profile : Option String) (m : Machine)
      → IsValid c m
      → contains waiting m.state ≡ true
      → Reaches c m visitor_mode 2 (handle_button_pressed c env trace trigger entry had profile m)
  unfolding legal press_request
  press-Reaches trace trigger entry had profile m v e =
      let r = press_request trace trigger entry had profile m in
      let p = step c env r m v (waiting-legal m.state e) in
      let q =
        step c env (plain visitor_mode "auto:button_to_visitor") (transition c env r m).0 p.valid
          (rw p.state refl) in
      rw (press-eq trace trigger entry had profile m e p.reply) (follow c env 1 1 p q)

  -- On a valid machine, a press of the bell in IDLE, APPROACH_DETECTED or IDENTITY_CACHED succeeds:
  -- it makes two transitions, none of them illegal, to VISITOR_MODE. In any other state it returns
  -- False and changes nothing, so a second press cannot start a second session.
  pub press-outcome :
      (trace : Option ℕ) (trigger : String) (entry : Entry) (had : Option Bool)
      (profile : Option String) (m : Machine)
      → IsValid c m
      → ((contains waiting m.state ≡ true)
          × Reaches c m visitor_mode 2
              (handle_button_pressed c env trace trigger entry had profile m))
        ⊎ ((contains waiting m.state ≡ false)
            × (handle_button_pressed c env trace trigger entry had profile m ≡ (m, returned false)))
  unfolding handle_button_pressed
  press-outcome trace trigger entry had profile m v = elim (Bool-cases (contains waiting m.state)) [
    | inl e ↦ inl (e, press-Reaches trace trigger entry had profile m v e)
    | inr e ↦ inr (e, rw e refl)
  ]
