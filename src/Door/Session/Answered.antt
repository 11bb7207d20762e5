-- ===== src/Door/Session/Answered.antt =====
-- What a session machine remembers of an answer, against the events that it handed out, and what
-- it reports when nobody takes up the offer of a message
-- (apps/door-api/src/door_api/session.py).
use doorboard.Prelude.{
  ℕ, ◌≡◌, refl, sym, ap, subst, ◌∙◌, Bool, true, false, ◌||◌, Bool-cases, inl, inr, none, some,
  List, [], ◌∷◌, ◌++◌, arith, if◌then◌else◌,
}
use doorboard.Contracts
use doorboard.Contracts.{SessionState, idle, session_end, video_message_offered, state_eq, legal}
use doorboard.Door.Store.{SessionStore}
use doorboard.Door.Session.Types.{
  SessionConfig, SessionOutcome, unanswered_timeout, abandoned, Event, Payload, state_changed,
  started, ended, Draw, Machine, Request, plain,
}
use doorboard.Door.Session.Timers.{plan_for}
use doorboard.Door.Session.Outcome.{find_outcome, outcome_for_trigger, outcome_for_end}
use doorboard.Door.Session.Transition.{ends, changed_event, further_events, transition}
use doorboard.Door.Session.Effects.{transition-HasEffect, answered_after, session_during}
use doorboard.Door.Session.Restore.{fresh}
use doorboard.Door.Session.Handlers.{disarm, fire}
use doorboard.Door.Session.Commands.{Command, run}
use doorboard.Door.Session.Invariant.{HasIds, HasOutboxes, IsValid}
use doorboard.Door.Session.Invariant.Steps.{Stable}
use doorboard.Door.Session.Invariant.Timer.{
  plan-legal, timed-IsPlanned, fire-eq-transition, disarm_rest,
}
use doorboard.Door.Session.Invariant.Runs.{fresh-IsValid, run-Holds, run-IsValid}

-- Read from the events alone: was the session that is open answered? A session starts unanswered
-- when IDLE is left.
abbrev pub answers : Bool → Payload → Bool
answers b (state_changed _ f t _ _) =
    state_eq t Contracts.answered || (if state_eq f idle then false else b)
answers b (started _ _) = b
answers b (ended _ _) = b

abbrev pub answered_in : Bool → List Event → Bool
answered_in b [] = b
answered_in b (e ∷ es) = answered_in (answers b e.payload) es

answered_in-append :
    (b : Bool) (xs ys : List Event) → answered_in b (xs ++ ys) ≡ answered_in (answered_in b xs) ys
answered_in-append b [] ys = refl
answered_in-append b (x ∷ xs) ys = answered_in-append (answers b x.payload) xs ys

-- The memory agrees with the events.
abbrev pub Remembers : Machine → Type 0
Remembers m = m.was_answered ≡ (if state_eq m.state idle then false else answered_in false m.events)

module _ (c : SessionConfig) (d : Draw) (r : Request) (from_state : SessionState)
    (session trace : ℕ) where
  further_answers :
      (w b : Bool) → answered_in b (further_events c d r from_state w session trace) ≡ b
  unfolding further_events
  further_answers w b = elim (Bool-cases (state_eq from_state idle)) [
    | inl e ↦ elim (Bool-cases (ends from_state r.to_state)) [
      | inl f ↦ rw (e, f) refl
      | inr f ↦ rw (e, f) refl
    ]
    | inr e ↦ elim (Bool-cases (ends from_state r.to_state)) [
      | inl f ↦ rw (e, f) refl
      | inr f ↦ rw (e, f) refl
    ]
  ]

  batch_answers :
      (w b : Bool)
      → answered_in b (
          changed_event c d r from_state session trace
          ∷ further_events c d r from_state w session trace)
        ≡ (state_eq r.to_state Contracts.answered
            || (if state_eq from_state idle then false else b))
  unfolding changed_event
  batch_answers w b = further_answers w _

forgets :
    (s : SessionState) (b a : Bool)
    → b ≡ (if state_eq s idle then false else a)
    → (if state_eq s idle then false else b) ≡ (if state_eq s idle then false else a)
forgets s b a e = ground arith

module _ (c : SessionConfig) (env : ℕ → Draw) where
  legal-Remembers :
      (r : Request) (m : Machine)
      → HasIds m
      → HasOutboxes m.store
      → legal m.state r.to_state ≡ true
      → Remembers m
      → Remembers (transition c env r m).0
  legal-Remembers r m h o l q =
      let eff = transition-HasEffect c env r m h o l in
      let w = answered_after r m in
      let b = answered_in false m.events in
      let first = changed_event c (env m.draws) r m.state eff.session eff.trace in
      let more = further_events c (env m.draws) r m.state w eff.session eff.trace in
      let logged =
        answered_in-append false m.events (first ∷ more)
        ∙ batch_answers c (env m.draws) r m.state eff.session eff.trace w b in
      eff.answered ∙ rw (eff.state, eff.events, logged, forgets m.state m.was_answered b q) refl

  Remembers-Stable : Stable c env Remembers
  Remembers-Stable = record {
    legal_step = legal-Remembers;
    same = λ m m' s _ w e q. rw (s, e) (w ∙ q);
  }

  -- Whatever happens to a new machine over a store with no session, restarts included,
  -- `was_answered` says what the reported state changes say: outside IDLE, whether ANSWERED was
  -- entered since IDLE was left, and in IDLE nothing.
  pub run-Remembers :
      (ks : List Command) (s : SessionStore Event)
      → HasOutboxes s
      → s.row ≡ none
      → Remembers (run c env ks (fresh s))
  run-Remembers ks s o e =
      (run-Holds c env Remembers Remembers-Stable ks (fresh s)
        (record { valid = fresh-IsValid c s o e; kept = refl })).kept

-- What is reported for an offer that nobody takes up.
abbrev pub offer_outcome : Bool → SessionOutcome
offer_outcome answered = if answered then abandoned else unanswered_timeout

offer_end :
    (b : Bool) → outcome_for_end b video_message_offered "timeout:inactivity" ≡ offer_outcome b
unfolding outcome_for_end outcome_for_trigger find_outcome
offer_end true = refl
offer_end false = refl

-- The payloads of a log.
abbrev pub LastPayloads : Machine → List Event → ℕ → SessionState → SessionOutcome → Type 0
LastPayloads m es session from_state o =
    (changed : Event) × (ended_by : Event) × (es ≡ m.events ++ changed ∷ ended_by ∷ [])
    × (m.session_id ≡ some session)
    × (changed.payload ≡ state_changed session from_state session_end "timeout:inactivity" none)
    × (ended_by.payload ≡ ended session o)

abbrev unclaimed : Request
unclaimed = plain session_end "timeout:inactivity"

unclaimed_batch :
    (c : SessionConfig) (d : Draw) (session trace : ℕ) (w : Bool) {s : SessionState}
    → s ≡ video_message_offered
    → ((changed_event c d unclaimed s session trace).payload
        ≡ state_changed session video_message_offered session_end "timeout:inactivity" none)
      × ((x : Event) × (further_events c d unclaimed s w session trace ≡ x ∷ [])
          × (x.payload ≡ ended session (offer_outcome w)))
unfolding changed_event further_events ends
unclaimed_batch c d session trace w h = rw h (refl, (_, refl, ap (ended session) (offer_end w)))

offered_after :
    (m : Machine) → m.state ≡ video_message_offered → answered_after unclaimed m ≡ m.was_answered
offered_after m h = rw h refl

offered_session :
    (d : Draw) (m : Machine) → m.state ≡ video_message_offered → session_during d m ≡ m.session_id
offered_session d m h = rw h refl

module _ (c : SessionConfig) (env : ℕ → Draw) where
  offered-payloads :
      (m : Machine)
      → IsValid c m
      → m.state ≡ video_message_offered
      → (session : ℕ) × LastPayloads m
          (fire c env m).0.events
          session
          video_message_offered
          (offer_outcome m.was_answered)
  unfolding plan_for disarm
  offered-payloads m v e =
      let planned = ap (plan_for c) e in
      let (ids, boxes, edge) = disarm_rest c env m session_end v (plan-legal c m.state planned) in
      let eff = transition-HasEffect c env unclaimed (disarm c env m) ids boxes edge in
      let same = fire-eq-transition c env m (timed-IsPlanned c m v.timed planned) in
      let (first, (x, more, end)) =
        unclaimed_batch c (env m.draws) eff.session eff.trace m.was_answered e in
      (
        eff.session,
        (
          changed_event c (env m.draws) unclaimed m.state eff.session eff.trace,
          x,
          ap (λ y. y.0.events) same ∙ eff.events ∙ rw (offered_after m e, more) refl,
          sym (offered_session (env m.draws) m e) ∙ eff.session_of,
          first,
          end,
        ),
      )

  -- Whatever has happened to a new machine over a store with no session: when the timer of
  -- VIDEO_MESSAGE_OFFERED fires, the session goes to SESSION_END and is reported as ended, as an
  -- unanswered bell if the reported state changes have no ANSWERED in this session, and as
  -- abandoned if they have one.
  pub offer-expiry :
      (ks : List Command) (s : SessionStore Event)
      → HasOutboxes s
      → s.row ≡ none
      → (run c env ks (fresh s)).state ≡ video_message_offered
      → (session : ℕ) × LastPayloads
          (run c env ks (fresh s))
          (fire c env (run c env ks (fresh s))).0.events
          session
          video_message_offered
          (offer_outcome (answered_in false (run c env ks (fresh s)).events))
  offer-expiry ks s o e h =
      let m = run c env ks (fresh s) in
      let v = run-IsValid c env ks (fresh s) (fresh-IsValid c s o e) in
      let known : m.was_answered ≡ answered_in false m.events =
        run-Remembers c env ks s o e ∙ rw h refl in
      subst
        (λ b.
          (session : ℕ) × LastPayloads m (fire c env m).0.events session video_message_offered
            (offer_outcome b))
        known (offered-payloads m v h)
