-- ===== src/Door/Session/Invariant/Steps.antt =====
-- A transition keeps the invariant, legal or not, and never fails an assertion
-- (apps/door-api/src/door_api/session.py).
use doorboard.Prelude.{
  ℕ, ◌+◌, String, ◌≡◌, refl, Bool, true, false, Option, some, inl, inr, Bool-cases,
}
use doorboard.Contracts.{idle, state_eq, legal}
use doorboard.Door.Session.Types.{
  SessionConfig, Draw, Machine, Request, returned, assertion_error, Called, and_then,
}
use doorboard.Door.Store.{save}
use doorboard.Door.Session.Transition.{
  persisted, refuse, publish, execute, transition, saved, persist,
}
use doorboard.Door.Session.Invariant.{HasIds, HasOutboxes, IsTimed, IsValid}
use doorboard.Door.Session.Invariant.Stages.{
  IsStaged, staged, staged-IsStaged, publish-IsValid, some_of,
}

refuse-IsValid : (c : SessionConfig) (m : Machine) → IsValid c m → IsValid c (refuse m)
unfolding refuse
refuse-IsValid c m v = record {
  ids = v.ids;
  stored = v.stored;
  timed = v.timed;
  outboxes = v.outboxes;
}

-- A further property of machines, beside the invariant: legal transitions bring it on, and it
-- depends on nothing but the state, the session, the answer and the events.
pub record Stable (c : SessionConfig) (env : ℕ → Draw) (Q : Machine → Type 0) : Type 0 where
  pub legal_step :
      (r : Request) (m : Machine)
      → HasIds m
      → HasOutboxes m.store
      → legal m.state r.to_state ≡ true
      → Q m
      → Q (transition c env r m).0
  pub same :
      (m m' : Machine)
      → m'.state ≡ m.state
      → m'.session_id ≡ m.session_id
      → m'.was_answered ≡ m.was_answered
      → m'.events ≡ m.events
      → Q m
      → Q m'

pub record Holds (c : SessionConfig) (Q : Machine → Type 0) (m : Machine) : Type 0 where
  pub valid : IsValid c m
  pub kept : Q m

-- What a call has come to: it has returned, and the invariant and the property hold.
pub record Succeeds (c : SessionConfig) (Q : Machine → Type 0) (x : Called) : Type 0 where
  pub holds : Holds c Q x.0
  pub returns : (b : Bool) × (x.1 ≡ returned b)

pub succeed :
    {c : SessionConfig} {Q : Machine → Type 0} (m : Machine) (b : Bool)
    → Holds c Q m
    → Succeeds c Q (m, returned b)
succeed m b h = record { holds = h; returns = (b, refl) }

module _ (c : SessionConfig) (env : ℕ → Draw) where
  -- A legal transition needs little to succeed, and is `publish` on the staged machine.
  pub execute-eq-publish :
      (d : Draw) (r : Request) (m : Machine)
      → HasIds m
      → HasOutboxes m.store
      → (session : ℕ) × (trace : ℕ) × IsStaged r (staged d r m) session trace
        × (execute c d r m ≡ (publish c d r m.state session trace (staged d r m), returned true))
  unfolding execute
  execute-eq-publish d r m h o =
      let (s, t, st) = staged-IsStaged d r m h o in (s, t, st, rw (st.session_id, st.trace_id))

  -- A legal transition needs no more than the ids to bring the invariant about.
  pub legal-IsValid :
      (r : Request) (m : Machine)
      → HasIds m
      → HasOutboxes m.store
      → legal m.state r.to_state ≡ true
      → IsValid c (transition c env r m).0 × ((transition c env r m).1 ≡ returned true)
  unfolding transition
  legal-IsValid r m h o l =
      let d = env m.draws in
      let (s, t, st, e) = execute-eq-publish d r m h o in
      rw (l, e) (publish-IsValid c d r m.state s t (staged d r m) st, refl)

  pub illegal-eq-refuse :
      (r : Request) (m : Machine)
      → legal m.state r.to_state ≡ false
      → transition c env r m ≡ (refuse m, returned false)
  unfolding transition
  illegal-eq-refuse r m e = rw e

  saved-eq :
      (boot : String) (i j : Option ℕ) {s t : ℕ} (m : Machine)
      → i ≡ some s
      → j ≡ some t
      → saved c boot i j m ≡ (
        record m { store = save (persisted boot s t m) m.store; draws = m.draws + 1 },
        returned false,
      )
  unfolding saved
  saved-eq boot i j m p q = rw (p, q)

module _ (c : SessionConfig) (env : ℕ → Draw) (Q : Machine → Type 0) (stable : Stable c env Q) where
  pub legal-Succeeds :
      (r : Request) (m : Machine)
      → HasIds m
      → HasOutboxes m.store
      → legal m.state r.to_state ≡ true
      → Q m
      → Succeeds c Q (transition c env r m)
  legal-Succeeds r m h o l q =
      let (v, e) = legal-IsValid c env r m h o l in
      record {
        holds = record { valid = v; kept = stable.legal_step r m h o l q };
        returns = (true, e);
      }

  pub transition-Succeeds :
      (r : Request) (m : Machine) → Holds c Q m → Succeeds c Q (transition c env r m)
  unfolding refuse
  transition-Succeeds r m v = elim (Bool-cases (legal m.state r.to_state)) [
    | inl e ↦ legal-Succeeds r m v.valid.ids v.valid.outboxes e v.kept
    | inr e ↦ rw (illegal-eq-refuse c env r m e) (
        succeed _ false (record {
          valid = refuse-IsValid c m v.valid;
          kept = stable.same m _ refl refl refl refl v.kept;
        }))
  ]

  -- `_persist()` on a running session.
  pub persist-Succeeds :
      (m : Machine)
      → HasIds m
      → state_eq m.state idle ≡ false
      → IsTimed c m
      → HasOutboxes m.store
      → Q m
      → Succeeds c Q (persist c env m)
  unfolding persist save persisted
  persist-Succeeds m h e t o q =
      let (s, es) = some_of m.session_id (rw e at h.0) in
      let (u, eu) = some_of m.trace_id (rw e at h.1) in
      let row = persisted (env m.draws).boot_id s u m in
      rw (saved-eq c env (env m.draws).boot_id m.session_id m.trace_id m es eu) (
        succeed _ false (record {
          valid = record {
            ids = h;
            stored = inr (e, (row, refl, (refl, es, eu, refl, refl, refl, refl, refl, refl, refl)));
            timed = t;
            outboxes = record { media = o.media; sync = o.sync };
          };
          kept = stable.same m _ refl refl refl refl q;
        }))

  -- The rest of a body runs from a machine on which all holds.
  pub Succeeds-and_then :
      (x : Called) (k : Machine → Bool → Called)
      → Succeeds c Q x
      → ((m : Machine) (b : Bool) → Holds c Q m → Succeeds c Q (k m b))
      → Succeeds c Q (and_then x k)
  Succeeds-and_then (m, returned b) k h hk = hk m b h.holds
  Succeeds-and_then (m, assertion_error) k h hk = cc h.returns.1
