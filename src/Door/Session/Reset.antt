-- ===== src/Door/Session/Reset.antt =====
-- The two ways to break off a session (`handle_session_end` and `handle_admin_reset` of
-- apps/door-api/src/door_api/session.py).
use doorboard.Prelude.{
  ℕ, ◌≡◌, refl, sym, ap, ◌∙◌, Bool, true, false, not, ◌⊎◌, inl, inr, Bool-cases, some, [], ◌∷◌,
  ◌++◌, arith,
}
use doorboard.Contracts.{
  SessionState, idle, approach_detected, identity_cached, session_end, state_eq, contains, legal,
}
use doorboard.Door.Session.Types.{
  SessionConfig, reset, Event, ended, Draw, Machine, Request, plain, returned,
}
use doorboard.Door.Session.Outcome.{find_outcome, outcome_for_trigger, outcome_for_end}
use doorboard.Door.Session.Transition.{ends, changed_event, further_events, transition, refuse}
use doorboard.Door.Session.Handlers.{handle_admin_reset}
use doorboard.Door.Session.Effects.{transition-HasEffect, answered_after, session_during}
use doorboard.Door.Session.Invariant.{IsValid}
use doorboard.Door.Session.Invariant.Steps.{illegal-eq-refuse}
use doorboard.Contracts.Graph.{state_eq→eq}
use doorboard.Door.Session.Press.{Reaches, step}

abbrev resetting : SessionState → Request
resetting s = plain s "admin:reset"

reset_outcome : (w : Bool) (s : SessionState) → outcome_for_end w s "admin:reset" ≡ reset
unfolding outcome_for_end outcome_for_trigger find_outcome
reset_outcome w s = ground arith

-- A session that is open and past the bell.
abbrev pub rung_open : SessionState → Bool
rung_open s = not (contains (idle ∷ approach_detected ∷ identity_cached ∷ session_end ∷ []) s)

further_eq :
    (c : SessionConfig) (d : Draw) (session trace : ℕ) (w : Bool) (s : SessionState)
    → rung_open s ≡ true
    → (x : Event) × (further_events c d (resetting session_end) s w session trace ≡ x ∷ [])
      × (x.payload ≡ ended session reset)
unfolding further_events ends
further_eq c d session trace w s h =
    let inside : state_eq s idle ≡ false = ground arith in
    rw inside (_, refl, ap (ended session) (reset_outcome w s))

rung-legal : (s : SessionState) → rung_open s ≡ true → legal s session_end ≡ true
unfolding legal
rung-legal s h = ground arith

session_of_rung :
    (d : Draw) (m : Machine) → rung_open m.state ≡ true → session_during d m ≡ m.session_id
session_of_rung d m h = ground arith

-- What a reset reports of an open session.
abbrev pub ReportsReset : Machine → Machine → Type 0
ReportsReset m m' =
    (changed : Event) × (last : Event) × (session : ℕ) × (m'.events
      ≡ m.events ++ changed ∷ last ∷ [])
    × (m.session_id ≡ some session)
    × (last.payload ≡ ended session reset)

module _ (c : SessionConfig) (env : ℕ → Draw) where
  reset_open-eq :
      (m : Machine)
      → rung_open m.state ≡ true
      → handle_admin_reset c env m ≡ transition c env (resetting session_end) m
  unfolding handle_admin_reset
  reset_open-eq m h =
      let inside : state_eq m.state idle ≡ false = ground arith in
      let before : state_eq m.state session_end ≡ false = ground arith in rw (inside, before) refl

  reset_reports :
      (m : Machine)
      → IsValid c m
      → rung_open m.state ≡ true
      → ReportsReset m (transition c env (resetting session_end) m).0
  reset_reports m v h =
      let d = env m.draws in
      let r = resetting session_end in
      let eff = transition-HasEffect c env r m v.ids v.outboxes (rung-legal m.state h) in
      let (x, more, end) = further_eq c d eff.session eff.trace (answered_after r m) m.state h in
      (
        changed_event c d r m.state eff.session eff.trace,
        x,
        eff.session,
        eff.events ∙ rw more refl,
        sym (session_of_rung d m h) ∙ eff.session_of,
        end,
      )

  -- An admin's reset of a valid machine: with the bell rung it ends the session at once, which is
  -- reported with the outcome `reset`; in SESSION_END it clears the session; in IDLE it does
  -- nothing. While a visitor is only seen, in APPROACH_DETECTED and IDENTITY_CACHED, it is refused:
  -- it returns False and counts an illegal transition, and the session stays.
  pub admin_reset-outcome :
      (m : Machine)
      → IsValid c m
      → ((rung_open m.state ≡ true)
          × Reaches c m session_end 1 (handle_admin_reset c env m)
          × ReportsReset m (handle_admin_reset c env m).0)
        ⊎ (((m.state ≡ session_end) × Reaches c m idle 1 (handle_admin_reset c env m))
            ⊎ (((m.state ≡ idle) × (handle_admin_reset c env m ≡ (m, returned false)))
                ⊎ ((contains (approach_detected ∷ identity_cached ∷ []) m.state ≡ true)
                    × (handle_admin_reset c env m ≡ (refuse m, returned false)))))
  unfolding handle_admin_reset legal
  admin_reset-outcome m v = elim (Bool-cases (rung_open m.state)) [
    | inl h ↦ rw (reset_open-eq m h) (
        inl (h, step c env (resetting session_end) m v (rung-legal m.state h), reset_reports m v h))
    | inr h ↦ elim (Bool-cases (state_eq m.state session_end)) [
      | inl e ↦
          let at_end = state_eq→eq m.state session_end e in
          let at_idle : state_eq m.state idle ≡ false = ground arith in
          inr (inl (at_end, rw (at_idle, e) (step c env (resetting idle) m v (rw at_end refl))))
      | inr e ↦ elim (Bool-cases (state_eq m.state idle)) [
        | inl f ↦ inr (inr (inl (state_eq→eq m.state idle f, rw f refl)))
        | inr f ↦ inr (
            inr (
              inr (
                ground arith,
                rw (f, e) (illegal-eq-refuse c env (resetting session_end) m (ground arith)),
              )))
      ]
    ]
  ]
