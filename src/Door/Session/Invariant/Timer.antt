-- ===== src/Door/Session/Invariant/Timer.antt =====
-- The timer of a state leads along an edge of the table, so its transition is legal
-- (apps/door-api/src/door_api/session.py).
use doorboard.Prelude.{
  ℕ, String, ◌≡◌, refl, inl, inr, true, false, Option, none, some, arith, ◌∙◌, ap, Option-cases,
  if-true, if-false,
}
use doorboard.Contracts.{SessionState, legal}
use doorboard.Door.Session.Types.{SessionConfig, Draw, Machine, plain, returned}
use doorboard.Door.Session.Timers.{Plan, plan_for}
use doorboard.Door.Session.Transition.{transition}
use doorboard.Door.Session.Handlers.{disarm, fire_at, fire}
use doorboard.Door.Session.Invariant.{HasIds, HasOutboxes, IsTimed, IsValid}
use doorboard.Door.Session.Invariant.Steps.{Stable, Holds, Succeeds, succeed, legal-Succeeds}

pub plan-legal :
    (c : SessionConfig) (s : SessionState) {p : Plan}
    → plan_for c s ≡ some p
    → legal s p.target ≡ true
unfolding plan_for legal
plan-legal c s h = ground arith

-- An armed timer carries out the plan of the state.
pub record IsPlanned (c : SessionConfig) (m : Machine) (p : Plan) : Type 0 where
  pub plan : plan_for c m.state ≡ some p
  pub armed : m.timer.armed ≡ true
  pub target : m.timer.target_state ≡ some p.target
  pub trigger : m.timer.trigger ≡ p.trigger

pub timed-IsPlanned :
    (c : SessionConfig) (m : Machine) {p : Plan}
    → IsTimed c m
    → plan_for c m.state ≡ some p
    → IsPlanned c m p
timed-IsPlanned c m (e, t) h = record {
  plan = h;
  armed = ap (λ x. x.armed) t ∙ rw h;
  target = ap (λ x. x.target_state) t ∙ rw h;
  trigger = ap (λ x. x.trigger) t ∙ rw h;
}

module _ (c : SessionConfig) (env : ℕ → Draw) where
  fire_at-eq :
      (o : Option SessionState) (s : String) (m : Machine) {t : SessionState} {u : String}
      → o ≡ some t
      → s ≡ u
      → fire_at c env o s m ≡ transition c env (plain t u) m
  unfolding fire_at
  fire_at-eq o s m p q = rw (p, q)

  -- Firing the timer is the transition that was planned.
  pub fire-eq-transition :
      (m : Machine) {p : Plan}
      → IsPlanned c m p
      → fire c env m ≡ transition c env (plain p.target p.trigger) (disarm c env m)
  unfolding fire
  fire-eq-transition m h =
      if-true m.timer.armed _ _ h.armed
      ∙ fire_at-eq m.timer.target_state m.timer.trigger (disarm c env m) h.target h.trigger

  pub fire_unplanned :
      (m : Machine) → IsTimed c m → plan_for c m.state ≡ none → fire c env m ≡ (m, returned false)
  unfolding fire
  fire_unplanned m (e, t) h = if-false m.timer.armed _ _ (ap (λ x. x.armed) t ∙ rw h)

  pub disarm_rest :
      (m : Machine) (s : SessionState)
      → IsValid c m
      → legal m.state s ≡ true
      → HasIds (disarm c env m)
        × HasOutboxes (disarm c env m).store
        × (legal (disarm c env m).state s ≡ true)
  unfolding disarm
  disarm_rest m s v h = (v.ids, v.outboxes, h)

module _ (c : SessionConfig) (env : ℕ → Draw) (Q : Machine → Type 0) (stable : Stable c env Q) where
  pub fire-Succeeds : (m : Machine) → Holds c Q m → Succeeds c Q (fire c env m)
  unfolding disarm
  fire-Succeeds m v = elim (Option-cases (plan_for c m.state)) [
    | inl e ↦ rw (fire_unplanned c env m v.valid.timed e) (succeed m false v)
    | inr (p, e) ↦
        let (ids, boxes, edge) = disarm_rest c env m p.target v.valid (plan-legal c m.state e) in
        rw (fire-eq-transition c env m (timed-IsPlanned c m v.valid.timed e)) (
          legal-Succeeds c env Q stable (plain p.target p.trigger) (disarm c env m) ids boxes edge
            (stable.same m _ refl refl refl refl v.kept))
  ]
