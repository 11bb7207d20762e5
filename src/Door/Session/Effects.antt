-- ===== src/Door/Session/Effects.antt =====
-- What a legal transition does to each field of the session machine
-- (apps/door-api/src/door_api/session.py).
use doorboard.Prelude.{
  ℕ, ◌+◌, ◌≡◌, sym, ap, ◌∙◌, Bool, true, false, ◌||◌, Option, none, some, ◌∷◌, ◌++◌, arith,
  if◌then◌else◌,
}
use doorboard.Contracts
use doorboard.Contracts.{SessionState, idle, state_eq, legal}
use doorboard.Door.Session.Types.{SessionConfig, Draw, Machine, Request}
use doorboard.Door.Session.Timers.{schedule, cancel_timer}
use doorboard.Door.Session.Transition.{
  set_identity, enter, emit, ends, changed_event, further_events, write, publish, transition,
}
use doorboard.Door.Session.Invariant.{HasIds, HasOutboxes}
use doorboard.Door.Session.Invariant.Stages.{staged}
use doorboard.Door.Session.Invariant.Steps.{execute-eq-publish}

-- Has the session been answered once the step is made?
abbrev pub answered_after : Request → Machine → Bool
answered_after r m =
    state_eq r.to_state Contracts.answered
    || (if state_eq m.state idle then false else m.was_answered)

abbrev bump : Bool → ℕ → ℕ
bump b n = if b then n + 1 else n

-- The session that the step is part of.
abbrev pub session_during : Draw → Machine → Option ℕ
session_during d m = if state_eq m.state idle then some d.session_uuid else m.session_id

pub record HasEffect (c : SessionConfig) (d : Draw) (r : Request) (m m' : Machine) : Type 0 where
  pub session : ℕ
  pub trace : ℕ
  pub session_of : session_during d m ≡ some session
  pub state : m'.state ≡ r.to_state
  pub events :
      m'.events
      ≡ m.events
        ++ changed_event c d r m.state session trace
          ∷ further_events c d r m.state (answered_after r m) session trace
  pub session_id : m'.session_id ≡ (if state_eq r.to_state idle then none else some session)
  pub answered : m'.was_answered ≡ (if state_eq r.to_state idle then false else answered_after r m)
  pub last : m'.last_transition_mono_ms ≡ d.now_ms
  pub transitions : m'.metrics.transitions ≡ m.metrics.transitions + 1
  pub illegal : m'.metrics.illegal_transitions ≡ m.metrics.illegal_transitions
  pub starts : m'.metrics.sessions_started ≡ bump (state_eq m.state idle) m.metrics.sessions_started
  pub endings : m'.metrics.sessions_ended ≡ bump (ends m.state r.to_state) m.metrics.sessions_ended

-- The fields before the events.
module _ (d : Draw) (r : Request) (m : Machine) where
  staged_events : (staged d r m).events ≡ m.events
  unfolding enter set_identity cancel_timer
  staged_events = ground arith

  staged_session : (staged d r m).session_id ≡ session_during d m
  unfolding enter set_identity cancel_timer
  staged_session = ground arith

  staged_answered : (staged d r m).was_answered ≡ answered_after r m
  unfolding enter set_identity cancel_timer
  staged_answered = ground arith

  staged_last : (staged d r m).last_transition_mono_ms ≡ d.now_ms
  unfolding enter set_identity cancel_timer
  staged_last = ground arith

  staged_metrics :
      (staged d r m).metrics ≡ record m.metrics { transitions = m.metrics.transitions + 1 }
  unfolding enter set_identity cancel_timer
  staged_metrics = ground arith

-- What the write and the timer leave of a machine.
module _ (c : SessionConfig) (d : Draw) (r : Request) (from_state : SessionState)
    (session trace : ℕ) (m : Machine) where
  publish_state : (publish c d r from_state session trace m).state ≡ m.state
  unfolding publish emit write schedule
  publish_state = ground arith

  publish_events :
      (publish c d r from_state session trace m).events
      ≡ m.events
        ++ changed_event c d r from_state session trace
          ∷ further_events c d r from_state m.was_answered session trace
  unfolding publish emit write schedule
  publish_events = ground arith

  publish_session :
      (publish c d r from_state session trace m).session_id
      ≡ (if state_eq m.state idle then none else m.session_id)
  unfolding publish emit write schedule
  publish_session = ground arith

  publish_answered :
      (publish c d r from_state session trace m).was_answered
      ≡ (if state_eq m.state idle then false else m.was_answered)
  unfolding publish emit write schedule
  publish_answered = ground arith

  publish_last :
      (publish c d r from_state session trace m).last_transition_mono_ms ≡ m.last_transition_mono_ms
  unfolding publish emit write schedule
  publish_last = ground arith

  publish_metrics : (publish c d r from_state session trace m).metrics ≡ record m.metrics {
    sessions_started = bump (state_eq from_state idle) m.metrics.sessions_started;
    sessions_ended = bump (ends from_state r.to_state) m.metrics.sessions_ended;
  }
  unfolding publish emit write schedule
  publish_metrics = ground arith

module _ (c : SessionConfig) (env : ℕ → Draw) (r : Request) (m : Machine) where
  pub transition-HasEffect :
      HasIds m
      → HasOutboxes m.store
      → legal m.state r.to_state ≡ true
      → HasEffect c (env m.draws) r m (transition c env r m).0
  unfolding transition
  transition-HasEffect h o l =
      let d = env m.draws in
      let (s, t, st, e) = execute-eq-publish c env d r m h o in
      let n = staged d r m in
      let written = publish_metrics c d r m.state s t n in
      let counted = staged_metrics d r m in
      rw (l, e)
        (record {
          session = s;
          trace = t;
          session_of = sym (staged_session d r m) ∙ st.session_id;
          state = publish_state c d r m.state s t n ∙ st.state;
          events =
              publish_events c d r m.state s t n ∙ rw (staged_events d r m, staged_answered d r m);
          session_id = publish_session c d r m.state s t n ∙ rw (st.state, st.session_id);
          answered = publish_answered c d r m.state s t n ∙ rw (st.state, staged_answered d r m);
          last = publish_last c d r m.state s t n ∙ staged_last d r m;
          transitions = ap (λ x. x.transitions) written ∙ ap (λ x. x.transitions) counted;
          illegal =
              ap (λ x. x.illegal_transitions) written ∙ ap (λ x. x.illegal_transitions) counted;
          starts =
              ap (λ x. x.sessions_started) written
              ∙ ap (λ x. bump (state_eq m.state idle) x.sessions_started) counted;
          endings =
              ap (λ x. x.sessions_ended) written
              ∙ ap (λ x. bump (ends m.state r.to_state) x.sessions_ended) counted;
        })
