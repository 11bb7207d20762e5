-- ===== src/Door/Session/Invariant/Runs.antt =====
-- The invariant holds of a session machine after every list of commands
-- (apps/door-api/src/door_api/session.py).
use doorboard.Prelude.{ℕ, ◌≡◌, Bool, refl, none, List, [], ◌∷◌, inl}
use doorboard.Door.Store.{SessionStore}
use doorboard.Door.Session.Types.{SessionConfig, Event, Draw, Machine, returned}
use doorboard.Door.Session.Timers.{plan_for}
use doorboard.Door.Session.Handlers
use doorboard.Door.Session.Restore.{fresh}
use doorboard.Door.Session.Commands.{
  Command, request, button_pressed, identity_stable, identity_expired, contact_changed, answered,
  unanswered, session_end, video_message_offer, video_message_start, video_message_stop,
  video_message_rerecord, video_message_save, video_message_discard, admin_reset, fire, restart,
  perform, run,
}
use doorboard.Door.Session.Invariant.{HasOutboxes, IsValid}
use doorboard.Door.Session.Invariant.Steps.{Stable, Holds, Succeeds, transition-Succeeds}
use doorboard.Door.Session.Invariant.Handlers.{
  button_pressed-Succeeds, identity_stable-Succeeds, identity_expired-Succeeds,
  contact_changed-Succeeds, answered-Succeeds, unanswered-Succeeds, session_end-Succeeds,
  video_message_offer-Succeeds, video_message_start-Succeeds, video_message_stop-Succeeds,
  video_message_rerecord-Succeeds, video_message_save-Succeeds, video_message_discard-Succeeds,
  admin_reset-Succeeds,
}
use doorboard.Door.Session.Invariant.Restart.{restore-Succeeds}
use doorboard.Door.Session.Invariant.Timer.{fire-Succeeds}

-- A new machine over an empty store is valid.
pub fresh-IsValid :
    (c : SessionConfig) (s : SessionStore Event)
    → HasOutboxes s
    → s.row ≡ none
    → IsValid c (fresh s)
unfolding plan_for
fresh-IsValid c s o e = record {
  ids = (refl, refl);
  stored = inl (refl, e, (refl, refl, refl, refl, refl));
  timed = (0, refl);
  outboxes = o;
}

module _ (c : SessionConfig) (env : ℕ → Draw) (Q : Machine → Type 0) (stable : Stable c env Q) where
  -- Every command keeps the invariant and a stable property.
  pub perform-Succeeds :
      (k : Command) (m : Machine) → Holds c Q m → Succeeds c Q (perform c env k m)
  unfolding perform
  perform-Succeeds (request r) m v = transition-Succeeds c env Q stable r m v
  perform-Succeeds (button_pressed t s e b p) m v =
      button_pressed-Succeeds c env Q stable t s e b p m v
  perform-Succeeds (identity_stable a b d t) m v =
      identity_stable-Succeeds c env Q stable a b d t m v
  perform-Succeeds (identity_expired p) m v = identity_expired-Succeeds c env Q stable p m v
  perform-Succeeds (contact_changed s) m v = contact_changed-Succeeds c env Q stable s m v
  perform-Succeeds (answered t) m v = answered-Succeeds c env Q stable t m v
  perform-Succeeds (unanswered t) m v = unanswered-Succeeds c env Q stable t m v
  perform-Succeeds (session_end t) m v = session_end-Succeeds c env Q stable t m v
  perform-Succeeds (video_message_offer t s) m v =
      video_message_offer-Succeeds c env Q stable t s m v
  perform-Succeeds video_message_start m v = video_message_start-Succeeds c env Q stable m v
  perform-Succeeds video_message_stop m v = video_message_stop-Succeeds c env Q stable m v
  perform-Succeeds video_message_rerecord m v = video_message_rerecord-Succeeds c env Q stable m v
  perform-Succeeds (video_message_save rs) m v = video_message_save-Succeeds c env Q stable rs m v
  perform-Succeeds video_message_discard m v = video_message_discard-Succeeds c env Q stable m v
  perform-Succeeds admin_reset m v = admin_reset-Succeeds c env Q stable m v
  perform-Succeeds fire m v = fire-Succeeds c env Q stable m v
  perform-Succeeds (restart now boot) m v = restore-Succeeds c env Q stable now boot m v

  pub run-Holds : (ks : List Command) (m : Machine) → Holds c Q m → Holds c Q (run c env ks m)
  unfolding run
  run-Holds [] m v = v
  run-Holds (k ∷ ks) m v = run-Holds ks (perform c env k m).0 (perform-Succeeds k m v).holds

-- The invariant alone.
Nothing-Stable : (c : SessionConfig) (env : ℕ → Draw) → Stable c env (λ _. Unit)
Nothing-Stable c env = record { legal_step = λ _ _ _ _ _ _. tt; same = λ _ _ _ _ _ _ _. tt }

module _ (c : SessionConfig) (env : ℕ → Draw) where
  -- From a valid machine every command returns a Boolean, so no `assert` fails, and it leaves a
  -- valid machine.
  pub perform-IsValid :
      (k : Command) (m : Machine)
      → IsValid c m
      → IsValid c (perform c env k m).0 × ((b : Bool) × ((perform c env k m).1 ≡ returned b))
  perform-IsValid k m v =
      let h =
        perform-Succeeds c env _ (Nothing-Stable c env) k m (record { valid = v; kept = tt }) in
      (h.holds.valid, h.returns)

  -- From a valid machine, after any calls of the handlers, expiries of the timer and restarts, in
  -- any order, the machine is valid: the ids are there exactly outside IDLE, the stored row says
  -- what the memory says and is absent in IDLE, the timer is the one of the state, and both
  -- outboxes keep their bound and their key.
  pub run-IsValid : (ks : List Command) (m : Machine) → IsValid c m → IsValid c (run c env ks m)
  run-IsValid ks m v =
      (run-Holds c env _ (Nothing-Stable c env) ks m (record { valid = v; kept = tt })).valid

  pub fire-IsValid :
      (m : Machine)
      → IsValid c m
      → IsValid c (Handlers.fire c env m).0
        × ((b : Bool) × ((Handlers.fire c env m).1 ≡ returned b))
  unfolding perform
  fire-IsValid m v = perform-IsValid fire m v
