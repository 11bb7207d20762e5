-- ===== src/Door/Session/Invariant/Restart.antt =====
-- A restart keeps the invariant and fails no assertion, whatever was written when the process
-- ended (apps/door-api/src/door_api/session.py).
use doorboard.Prelude.{
  ℕ, ◌-◌, String, ◌≡◌, refl, inl, inr, Bool-cases, true, false, Option, none, some, arith, sym, ap,
  subst, is_some,
}
use doorboard.Contracts.{SessionState, idle, session_end, state_eq, legal}
use doorboard.Contracts.Graph.{legal_exit, state_eq→eq}
use doorboard.Door.Store.{PersistedSession, load}
use doorboard.Door.Session.Types.{SessionConfig, Draw, Machine, no_timer, plain}
use doorboard.Door.Session.Timers.{schedule, plan_for}
use doorboard.Door.Session.Transition.{transition, refuse}
use doorboard.Door.Session.Restore.{
  meta_cached, meta_answered, adopt, new_epoch, has_expired, resume, resume_row, expire_to_idle,
  restore,
}
use doorboard.Door.Session.Commands.{reboot}
use doorboard.Door.Session.Invariant.{HasIds, Mirrors, HasOutboxes, IsValid}
use doorboard.Door.Session.Invariant.Steps.{
  Stable, Holds, Succeeds, succeed, transition-Succeeds, legal-Succeeds, illegal-eq-refuse,
  Succeeds-and_then,
}

-- What a refusal leaves alone.
pub refuse-HasIds : (m : Machine) → HasIds m → HasIds (refuse m)
unfolding refuse
refuse-HasIds m h = h

pub refuse-HasOutboxes : (m : Machine) → HasOutboxes m.store → HasOutboxes (refuse m).store
unfolding refuse
refuse-HasOutboxes m o = o

pub refuse-legal :
    (m : Machine) (t : SessionState) → legal m.state t ≡ true → legal (refuse m).state t ≡ true
unfolding refuse
refuse-legal m t e = e

pub end_to_idle : (s : SessionState) → state_eq s session_end ≡ true → legal s idle ≡ true
unfolding legal
end_to_idle s h = ground arith

none_of : (o : Option ℕ) → is_some o ≡ false → o ≡ none
none_of none h = refl
none_of (some n) h = cc

module _ (c : SessionConfig) (env : ℕ → Draw) where
  -- Scheduling on an adopted row gives a valid machine.
  adopt-IsValid :
      (p : PersistedSession) (m : Machine) (elapsed : ℕ)
      → m.timer ≡ no_timer
      → m.had_cached_profile ≡ false
      → m.was_answered ≡ false
      → m.store.row ≡ some p
      → state_eq p.state idle ≡ false
      → HasOutboxes m.store
      → IsValid c (schedule c p.state elapsed (adopt p m))
  unfolding schedule adopt
  adopt-IsValid p m elapsed t hc ha row e o =
      let cached = ap (meta_cached p.meta_json) (sym hc) in
      let answered = ap (meta_answered p.meta_json) (sym ha) in
      record {
        ids = (rw e, rw e);
        stored =
            inr (e, (p, row, (refl, refl, refl, refl, refl, refl, refl, refl, cached, answered)));
        timed = (elapsed, rw t);
        outboxes = o;
      }

  -- What is adopted from the row of a session that the memory had.
  pub adopt_rest :
      (p : PersistedSession) (m : Machine)
      → HasOutboxes m.store
      → state_eq p.state idle ≡ false
      → HasIds (adopt p m)
        × HasOutboxes (adopt p m).store
        × (state_eq (adopt p m).state idle ≡ false)
  unfolding adopt
  adopt_rest p m o e = ((rw e, rw e), o, e)

module _ (c : SessionConfig) (env : ℕ → Draw) (Q : Machine → Type 0) (stable : Stable c env Q) where
  refuse_kept : (m : Machine) → Q m → Q (refuse m)
  unfolding refuse
  refuse_kept m q = stable.same m _ refl refl refl refl q

  -- The row of a session brings back what the memory had.
  adopt_kept : (p : PersistedSession) (m : Machine) → Mirrors m p → Q m → Q (adopt p (reboot m))
  unfolding adopt
  adopt_kept p m h q = stable.same m _ h.0 (sym h.1) h.9 refl q

  -- The session is ended and cleared; from the two approach states in one step.
  expire-Succeeds :
      (first second : String) (m : Machine)
      → HasIds m
      → HasOutboxes m.store
      → state_eq m.state idle ≡ false
      → Q m
      → Succeeds c Q (expire_to_idle c env first second m)
  unfolding expire_to_idle
  expire-Succeeds first second m h o active q = elim (Bool-cases (state_eq m.state session_end)) [
    | inl last ↦
        rw last
          (legal-Succeeds c env Q stable (plain idle first) m h o (end_to_idle m.state last) q)
    | inr open_session ↦
        rw (open_session, active)
          (elim (Bool-cases (legal m.state session_end)) [
            | inl e ↦
                Succeeds-and_then c env Q stable (transition c env (plain session_end first) m) _
                  (legal-Succeeds c env Q stable (plain session_end first) m h o e q)
                  (λ m' b v. transition-Succeeds c env Q stable (plain idle second) m' v)
            | inr e ↦ rw (illegal-eq-refuse c env (plain session_end first) m e) (
                legal-Succeeds c env Q stable (plain idle second) (refuse m) (refuse-HasIds m h)
                  (refuse-HasOutboxes m o) (refuse-legal m idle (legal_exit m.state active e))
                  (refuse_kept m q))
          ])
  ]

  schedule_kept : (s : SessionState) (elapsed : ℕ) (m : Machine) → Q m → Q (schedule c s elapsed m)
  unfolding schedule
  schedule_kept s elapsed m q = stable.same m _ refl refl refl refl q

  resume-Succeeds :
      (now : ℕ) (boot : String) (p : PersistedSession) (m : Machine)
      → Holds c Q m
      → m.store.row ≡ some p
      → Mirrors m p
      → state_eq p.state idle ≡ false
      → Succeeds c Q (resume c env now boot p (reboot m))
  unfolding resume
  resume-Succeeds now boot p m v row mirror e =
      let (ids, boxes, active) = adopt_rest c env p (reboot m) v.valid.outboxes e in
      let q = adopt_kept p m mirror v.kept in
      elim (Bool-cases (new_epoch c env now boot p)) [
        | inl stale ↦ rw stale (expire-Succeeds _ _ (adopt p (reboot m)) ids boxes active q)
        | inr same ↦ rw same (elim (Bool-cases (has_expired c env now p)) [
          | inl late ↦ rw late (expire-Succeeds _ _ (adopt p (reboot m)) ids boxes active q)
          | inr live ↦ rw live (
              succeed _ false (record {
                valid =
                    adopt-IsValid c env p (reboot m) (now - p.last_transition_monotonic_ms) refl
                      refl refl row e v.valid.outboxes;
                kept = schedule_kept p.state _ _ q;
              }))
        ])
      ]

  -- With no row the memory was blank, in IDLE.
  blank_kept :
      (m : Machine)
      → Holds c Q m
      → m.store.row ≡ none
      → Q (record (reboot m) { state = idle; session_id = none })
  blank_kept m v e = elim v.valid.stored [
    | inl (at_rest, _, blank) ↦
        stable.same m _ (sym (state_eq→eq m.state idle at_rest))
          (sym (none_of _ (rw at_rest at v.valid.ids.0))) (sym blank.4) refl v.kept
    | inr (_, (p, row, _)) ↦ cc
  ]

  resume_row-Succeeds :
      (now : ℕ) (boot : String) (row : Option PersistedSession) (m : Machine)
      → Holds c Q m
      → m.store.row ≡ row
      → Succeeds c Q (resume_row c env now boot row (reboot m))
  unfolding resume_row plan_for
  resume_row-Succeeds now boot none m v e = succeed _ false (record {
    valid = record {
      ids = (refl, refl);
      stored = inl (refl, e, (refl, refl, refl, refl, refl));
      timed = (0, refl);
      outboxes = v.valid.outboxes;
    };
    kept = blank_kept m v e;
  })
  resume_row-Succeeds now boot (some p) m v e = elim v.valid.stored [
    | inl (_, row, _) ↦ cc
    | inr (active, (q, row, mirror)) ↦
        let same : q ≡ p = cc in
        let mirror' = subst (Mirrors m) same mirror in
        resume-Succeeds now boot p m v e mirror' (rw mirror'.0 active)
  ]

  pub restore-Succeeds :
      (now : ℕ) (boot : String) (m : Machine)
      → Holds c Q m
      → Succeeds c Q (restore c env now boot (reboot m))
  unfolding restore load
  restore-Succeeds now boot m v = resume_row-Succeeds now boot m.store.row m v refl
