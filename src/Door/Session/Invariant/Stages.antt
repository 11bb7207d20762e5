-- ===== src/Door/Session/Invariant/Stages.antt =====
-- The stages of a legal transition (apps/door-api/src/door_api/session.py) lead, one after the
-- other, to a machine that satisfies the invariant.
use doorboard.Prelude.{
  ℕ, ◌≡◌, refl, inl, inr, true, false, Option, none, some, List, ◌∷◌, arith, is_some, sym, subst,
  Bool-cases, map,
}
use doorboard.Contracts.{SessionState, idle, state_eq}
use doorboard.Door.Store.{save, clear, save_with_delivery_events, clear_with_delivery_events}
use doorboard.Door.Store.Laws.{deliver-IsValid, deliver_reports}
use doorboard.Door.Session.Types.{SessionConfig, Event, Draw, Machine, Request, no_timer}
use doorboard.Door.Session.Timers.{schedule, cancel_timer}
use doorboard.Door.Session.Transition.{
  keyed, set_identity, enter, emit, changed_event, further_events, persisted, write, publish,
}
use doorboard.Door.Session.Invariant.{HasIds, Mirrors, IsStored, HasOutboxes, IsValid}

-- The machine between the fields and the events of a legal transition.
abbrev pub staged : Draw → Request → Machine → Machine
staged d r m = enter d r (set_identity d r (cancel_timer m))

pub record IsStaged (r : Request) (m : Machine) (session trace : ℕ) : Type 0 where
  pub session_id : m.session_id ≡ some session
  pub trace_id : m.trace_id ≡ some trace
  pub state : m.state ≡ r.to_state
  pub timer : m.timer ≡ no_timer
  pub outboxes : HasOutboxes m.store

pub some_of : (o : Option ℕ) → is_some o ≡ true → (n : ℕ) × (o ≡ some n)
some_of none h = cc
some_of (some n) h = (n, refl)

staged_ids :
    (d : Draw) (r : Request) (m : Machine)
    → HasIds m
    → (is_some (staged d r m).session_id ≡ true) × (is_some (staged d r m).trace_id ≡ true)
unfolding enter set_identity cancel_timer
staged_ids d r m h = ground arith

staged_rest :
    (d : Draw) (r : Request) (m : Machine)
    → ((staged d r m).state ≡ r.to_state)
      × ((staged d r m).timer ≡ no_timer)
      × ((staged d r m).store ≡ m.store)
unfolding enter set_identity cancel_timer
staged_rest d r m = ground arith

pub staged-IsStaged :
    (d : Draw) (r : Request) (m : Machine)
    → HasIds m
    → HasOutboxes m.store
    → (session : ℕ) × (trace : ℕ) × IsStaged r (staged d r m) session trace
staged-IsStaged d r m h o =
    let (hs, ht) = staged_ids d r m h in
    let (s, es) = some_of (staged d r m).session_id hs in
    let (t, et) = some_of (staged d r m).trace_id ht in
    let (to, timer, store) = staged_rest d r m in
    (
      s,
      t,
      record {
        session_id = es;
        trace_id = et;
        state = to;
        timer = timer;
        outboxes = subst HasOutboxes (sym store) o;
      },
    )

-- What a write leaves behind, before the timer is set.
pub record IsWritten (r : Request) (m : Machine) : Type 0 where
  pub ids : HasIds m
  pub stored : IsStored m
  pub outboxes : HasOutboxes m.store
  pub state : m.state ≡ r.to_state
  pub timer : m.timer ≡ no_timer

module _ (d : Draw) (r : Request) (session trace : ℕ) (media : Event) (es : List Event)
    (m : Machine) (h : IsStaged r m session trace) where
  cleared : state_eq m.state idle ≡ true → IsWritten r (write d session trace media es m)
  unfolding write clear_with_delivery_events
  cleared e =
      let s = clear m.store in
      let k = keyed media in
      let ks = map keyed es in
      let boxes = deliver-IsValid k ks d.epoch s h.outboxes.media h.outboxes.sync in
      let report = deliver_reports k ks d.epoch s in
      rw e (record {
        ids = (rw e, rw e);
        stored = inl (e, report.0, (refl, refl, refl, refl, refl));
        outboxes = record { media = boxes.0; sync = boxes.1 };
        state = h.state;
        timer = h.timer;
      })

  persisted-Mirrors : Mirrors m (persisted d.boot_id session trace m)
  unfolding persisted
  persisted-Mirrors = (refl, h.session_id, h.trace_id, refl, refl, refl, refl, refl, refl, refl)

  kept : state_eq m.state idle ≡ false → IsWritten r (write d session trace media es m)
  unfolding write save_with_delivery_events
  kept e =
      let s = save (persisted d.boot_id session trace m) m.store in
      let k = keyed media in
      let ks = map keyed es in
      let boxes = deliver-IsValid k ks d.epoch s h.outboxes.media h.outboxes.sync in
      let report = deliver_reports k ks d.epoch s in
      rw e (record {
        ids = (rw (h.session_id, e), rw (h.trace_id, e));
        stored = inr (e, (persisted d.boot_id session trace m, report.0, persisted-Mirrors));
        outboxes = record { media = boxes.0; sync = boxes.1 };
        state = h.state;
        timer = h.timer;
      })

  write-IsWritten : IsWritten r (write d session trace media es m)
  write-IsWritten = elim (Bool-cases (state_eq m.state idle)) [ inl e ↦ cleared e | inr e ↦ kept e ]

emit-IsStaged :
    (from_state : SessionState) (es : List Event) (r : Request) (m : Machine) {session trace : ℕ}
    → IsStaged r m session trace
    → IsStaged r (emit from_state r.to_state es m) session trace
unfolding emit
emit-IsStaged from_state es r m h = record {
  session_id = h.session_id;
  trace_id = h.trace_id;
  state = h.state;
  timer = h.timer;
  outboxes = h.outboxes;
}

-- A machine whose session is written has only its timer missing.
schedule-IsValid :
    (c : SessionConfig) (r : Request) (m : Machine)
    → IsWritten r m
    → IsValid c (schedule c r.to_state 0 m)
unfolding schedule
schedule-IsValid c r m h = record {
  ids = h.ids;
  stored = h.stored;
  timed = (0, rw (h.state, h.timer));
  outboxes = h.outboxes;
}

-- From the events to the timer.
pub publish-IsValid :
    (c : SessionConfig) (d : Draw) (r : Request) (from_state : SessionState) (session trace : ℕ)
    (m : Machine)
    → IsStaged r m session trace
    → IsValid c (publish c d r from_state session trace m)
unfolding publish
publish-IsValid c d r from_state session trace m h =
    let first = changed_event c d r from_state session trace in
    let more = further_events c d r from_state m.was_answered session trace in
    let m' = emit from_state r.to_state (first ∷ more) m in
    schedule-IsValid c r (write d session trace first (first ∷ more) m') (
      write-IsWritten d r session trace first (first ∷ more) m'
        (emit-IsStaged from_state (first ∷ more) r m h))
