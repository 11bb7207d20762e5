-- ===== src/Door/Session/Resume.antt =====
-- What a restart makes of a session that was open (`restore_from_persistence` and
-- `_expire_to_idle` of apps/door-api/src/door_api/session.py).
use doorboard.Prelude.{
  ℕ, ◌-◌, String, ◌≡◌, refl, sym, ap, subst, ◌∙◌, Bool, true, false, ◌||◌, ◌⊎◌, inl, inr,
  Bool-cases, Option, some, arith, leb,
}
use doorboard.Contracts.{idle, session_end, state_eq, legal}
use doorboard.Contracts.Graph.{legal_exit}
use doorboard.Door.Store.{PersistedSession, load}
use doorboard.Door.Session.Types.{
  SessionConfig, Draw, Machine, no_timer, plain, returned, Called, and_then,
}
use doorboard.Door.Session.Timers.{plan_for, start, schedule}
use doorboard.Door.Session.Transition.{transition, refuse}
use doorboard.Door.Session.Restore.{
  adopt, expire_to_idle, new_epoch, has_expired, resume, resume_row, restore, fresh,
}
use doorboard.Door.Session.Commands.{reboot}
use doorboard.Door.Session.Effects.{transition-HasEffect}
use doorboard.Door.Session.Invariant.{HasIds, HasOutboxes, IsValid, Mirrors}
use doorboard.Door.Session.Invariant.Steps.{legal-IsValid, illegal-eq-refuse}
use doorboard.Door.Session.Invariant.Restart.{
  end_to_idle, adopt_rest, refuse-HasIds, refuse-HasOutboxes, refuse-legal,
}

-- A session that is over: IDLE, with nothing stored and nothing known.
pub record IsOver (c : SessionConfig) (x : Called) : Type 0 where
  pub valid : IsValid c x.0
  pub reply : x.1 ≡ returned true
  pub state : x.0.state ≡ idle

-- A session that goes on as it was, with the time that the process was down taken off its timer.
abbrev pub continued : SessionConfig → ℕ → Machine → Machine
continued c elapsed m = record m {
  timer = start (plan_for c m.state) elapsed no_timer;
  metrics = (fresh m.store).metrics;
}

module _ (c : SessionConfig) (env : ℕ → Draw) where
  to_idle :
      (s : String) (m : Machine)
      → HasIds m
      → HasOutboxes m.store
      → legal m.state idle ≡ true
      → IsOver c (transition c env (plain idle s) m)
  to_idle s m h o l =
      let (v, ok) = legal-IsValid c env (plain idle s) m h o l in
      record {
        valid = v;
        reply = ok;
        state = (transition-HasEffect c env (plain idle s) m h o l).state;
      }

  through_end :
      (first second : String) (m : Machine)
      → HasIds m
      → HasOutboxes m.store
      → legal m.state session_end ≡ true
      → IsOver c (
          and_then
            (transition c env (plain session_end first) m)
            λ m' _. transition c env (plain idle second) m')
  unfolding legal
  through_end first second m h o l =
      let r = plain session_end first in
      let (v, ok) = legal-IsValid c env r m h o l in
      let there = (transition-HasEffect c env r m h o l).state in
      rw ok (to_idle second (transition c env r m).0 v.ids v.outboxes (rw there refl))

  expired :
      (first second : String) (m : Machine)
      → HasIds m
      → HasOutboxes m.store
      → state_eq m.state idle ≡ false
      → IsOver c (expire_to_idle c env first second m)
  unfolding expire_to_idle
  expired first second m h o active = elim (Bool-cases (state_eq m.state session_end)) [
    | inl last ↦ rw last (to_idle first m h o (end_to_idle m.state last))
    | inr before ↦
        rw (before, active)
          (elim (Bool-cases (legal m.state session_end)) [
            | inl e ↦ through_end first second m h o e
            | inr e ↦ rw (illegal-eq-refuse c env (plain session_end first) m e) (
                to_idle second (refuse m) (refuse-HasIds m h) (refuse-HasOutboxes m o)
                  (refuse-legal m idle (legal_exit m.state active e)))
          ])
  ]

  adopted :
      (p : PersistedSession) (m : Machine) (elapsed : ℕ)
      → Mirrors m p
      → schedule c p.state elapsed (adopt p (reboot m)) ≡ continued c elapsed m
  unfolding schedule adopt
  adopted p m elapsed h = ground arith

  -- Is the session too old to go on?
  abbrev pub too_old : ℕ → String → PersistedSession → Bool
  too_old now boot p =
      new_epoch c env now boot p || leb c.inactivity_timeout (now - p.last_transition_monotonic_ms)

  live-eq :
      (now : ℕ) (boot : String) (p : PersistedSession) (m : Machine)
      → new_epoch c env now boot p ≡ false
      → has_expired c env now p ≡ false
      → resume c env now boot p m
        ≡ (schedule c p.state (now - p.last_transition_monotonic_ms) (adopt p m), returned false)
  unfolding resume
  live-eq now boot p m e f = rw (e, f) refl

  old-IsOver :
      (now : ℕ) (boot : String) (p : PersistedSession) (m : Machine)
      → HasOutboxes m.store
      → state_eq p.state idle ≡ false
      → too_old now boot p ≡ true
      → IsOver c (resume c env now boot p (reboot m))
  unfolding resume
  old-IsOver now boot p m o active old =
      let (ids, boxes, inside) = adopt_rest c env p (reboot m) o active in
      elim (Bool-cases (new_epoch c env now boot p)) [
        | inl e ↦ rw e (expired _ _ (adopt p (reboot m)) ids boxes inside)
        | inr e ↦
            let late : has_expired c env now p ≡ true = rw (active, sym (rw e at old)) refl in
            rw (e, late) (expired _ _ (adopt p (reboot m)) ids boxes inside)
      ]

  row-eq :
      (now : ℕ) (boot : String) (row : Option PersistedSession) (p : PersistedSession) (m : Machine)
      → row ≡ some p
      → resume_row c env now boot row m ≡ resume c env now boot p m
  unfolding resume_row
  row-eq now boot row p m e = rw e refl

  restore-eq :
      (now : ℕ) (boot : String) (p : PersistedSession) (m : Machine)
      → m.store.row ≡ some p
      → restore c env now boot (reboot m) ≡ resume c env now boot p (reboot m)
  unfolding restore load
  restore-eq now boot p m e = row-eq now boot m.store.row p (reboot m) e

  live_resume :
      (now : ℕ) (boot : String) (p : PersistedSession) (m : Machine)
      → Mirrors m p
      → state_eq p.state idle ≡ false
      → too_old now boot p ≡ false
      → resume c env now boot p (reboot m)
        ≡ (continued c (now - m.last_transition_mono_ms) m, returned false)
  live_resume now boot p m mirror inside live =
      let young : new_epoch c env now boot p ≡ false = ground arith in
      let early : has_expired c env now p ≡ false = ground arith in
      let last : p.last_transition_monotonic_ms ≡ m.last_transition_mono_ms = mirror.7 in
      live-eq now boot p (reboot m) young early
      ∙ ap (λ y. (y, returned false))
          (adopted p m (now - p.last_transition_monotonic_ms) mirror
            ∙ ap (λ t. continued c (now - t) m) last)

  -- A restart finds the session of a valid machine in the store. If the boot id and the monotonic
  -- clock are of the same epoch and less than the inactivity timeout has passed since the last
  -- transition, the session goes on: every field is as before, only the metrics start again, and the
  -- timer of the state has what is left of its timeout. Otherwise the session is over: the machine
  -- is in IDLE, and valid.
  pub restart-outcome :
      (now : ℕ) (boot : String) (p : PersistedSession) (m : Machine)
      → IsValid c m
      → m.store.row ≡ some p
      → ((too_old now boot p ≡ false)
          × (restore c env now boot (reboot m)
              ≡ (continued c (now - m.last_transition_mono_ms) m, returned false)))
        ⊎ ((too_old now boot p ≡ true) × IsOver c (restore c env now boot (reboot m)))
  restart-outcome now boot p m v row = elim v.stored [
    | inl (_, bare, _) ↦ cc
    | inr (active, (q, there, mirror')) ↦
        let same : q ≡ p = cc in
        let mirror = subst (Mirrors m) same mirror' in
        let inside : state_eq p.state idle ≡ false = rw mirror.0 active in
        elim (Bool-cases (too_old now boot p)) [
          | inl old ↦ inr (
            old,
            rw (restore-eq now boot p m row) (old-IsOver now boot p m v.outboxes inside old),
          )
          | inr live ↦
              inl (live, restore-eq now boot p m row ∙ live_resume now boot p m mirror inside live)
        ]
  ]
