-- ===== src/Esp32/Life/Reports.antt =====
-- What `status` and `health_check` report through the life of the link
-- (packages/esp32-link/src/doorboard_esp32_link/esp32.py).
use doorboard.Prelude.{
  ℕ, ◌-◌, ◌≤◌, ◌≡◌, refl, Bool, true, false, Option, none, some, is_some, inl, inr, ◌⊎◌, Bool-cases,
  List, not_lt→le, if◌then◌else◌,
}
use doorboard.Esp32.Wire.{ProtocolError}
use doorboard.Esp32.Link.{
  Reason, heartbeat_timeout, Setup, Link, same, changed, put_event, set_connected, next_seq,
  receive_error,
}
use doorboard.Esp32.Link.Health.{
  is_silent, after_silence, apply_heartbeat_timeout, status, Health, degraded, health_of,
  health_check,
}
use doorboard.Esp32.Frames.{Receiver}
use doorboard.Esp32.Life.{Closed}
use doorboard.Esp32.Life.Happenings.{Happening, happen_all, made, ClosedOutside, happen_all_keeps}
use doorboard.Esp32.Life.Sound.{happenings-Sound}

-- Connected only if there was a heartbeat, and the last is not older than the timeout.
abbrev pub IsFresh : ℕ → ℕ → Bool → Option ℕ → Type 0
IsFresh timeout now false last = Unit
IsFresh timeout now true none = true ≡ false
IsFresh timeout now true (some at) = now - at ≤ timeout

module _ (s : Setup) (now : ℕ) where
  lost : (reason : Reason) (l : Link) → (set_connected s now false reason l).connected ≡ false
  unfolding set_connected
  lost reason l = go l.connected refl
    where
      go :
          (b : Bool)
          → l.connected ≡ b
          → (if same l.connected false then l else changed s now false reason l).connected ≡ false
      go true e = rw e refl
      go false e = rw e refl

  silence-IsFresh :
      (b : Bool) (l : Link)
      → l.connected ≡ b
      → (l.connected ≡ false) ⊎ (is_some l.last_heartbeat_mono_ms ≡ true)
      → IsFresh s.heartbeat_timeout_ms now
          (after_silence s now b l).connected
          (after_silence s now b l).last_heartbeat_mono_ms
  silence-IsFresh false l e h = rw e tt
  silence-IsFresh true l e (inl f) = absurd (cc (e, f))
  silence-IsFresh true l e (inr f) = elim (Bool-cases (is_silent s now l.last_heartbeat_mono_ms)) [
    | inl g ↦ rw (g, lost heartbeat_timeout l) tt
    | inr g ↦ rw (g, e) (recent l.last_heartbeat_mono_ms f g)
  ]
    where
      recent :
          (last : Option ℕ)
          → is_some last ≡ true
          → is_silent s now last ≡ false
          → IsFresh s.heartbeat_timeout_ms now true last
      recent none f g = cc (f)
      recent (some at) f g = not_lt→le s.heartbeat_timeout_ms (now - at) g

-- At every time, and whatever happened to the link before, `status` says that the controller is
-- connected only where a heartbeat or a greeting was heard and the last is not older than the timeout.
pub status-IsFresh :
    (s : Setup) (ws : List Bool) (hs : List Happening) (now : ℕ)
    → IsFresh s.heartbeat_timeout_ms now
        (status s now (happen_all s hs (made ws)).link).1.connected
        (status s now (happen_all s hs (made ws)).link).1.last_heartbeat_mono_ms
unfolding status apply_heartbeat_timeout
status-IsFresh s ws hs now =
    let l = (happen_all s hs (made ws)).link in
    silence-IsFresh s now l.connected l refl (happenings-Sound s ws hs).heard

-- An error of the protocol is on record.
abbrev pub HasError : Link → Type 0
HasError l = is_some l.protocol_error ≡ true

abbrev pub is_degraded : Health → Bool
is_degraded (degraded e) = true
is_degraded _ = false

module _ (s : Setup) where
  set_connected-HasError :
      (now : ℕ) (c : Bool) (reason : Reason) (l : Link)
      → HasError l
      → HasError (set_connected s now c reason l)
  unfolding set_connected
  set_connected-HasError now c reason l h = elim (Bool-cases (same l.connected c)) [
    | inl e ↦ rw e h
    | inr e ↦ rw e h
  ]

  HasError-Closed : Closed s HasError
  unfolding receive_error next_seq put_event
  HasError-Closed = record {
    on_error = λ e l h. refl;
    on_ack = λ m a l h. h;
    on_dedupe = λ d l h. h;
    on_seq = λ l h. h;
    on_lost_frame = λ ws l h. h;
    on_ack_frame = λ n q ws l h. h;
    on_repeat = λ l h. h;
    on_greeting = λ now b fw l h. set_connected-HasError now true _ _ h;
    on_beat = λ now l h. set_connected-HasError now true _ _ h;
    on_event = λ e l h. h;
    on_loss = λ now reason l h. set_connected-HasError now false reason l h;
    on_failure = λ l h. refl;
  }

  HasError-ClosedOutside : ClosedOutside HasError
  HasError-ClosedOutside = record {
    on_attempt = record {
      on_own_frame = λ m ws l h. h;
      on_retry = λ l h. h;
      on_timeout = λ l h. h;
    };
    on_take_event = λ l h. h;
    on_take_link_state = λ l h. h;
    on_add = λ n l h. h;
    on_drop = λ n l h. h;
  }

  silence-HasError :
      (now : ℕ) (b : Bool) (l : Link) → HasError l → HasError (after_silence s now b l)
  silence-HasError now false l h = h
  silence-HasError now true l h = elim (Bool-cases (is_silent s now l.last_heartbeat_mono_ms)) [
    | inl e ↦ rw e (set_connected-HasError now false heartbeat_timeout l h)
    | inr e ↦ rw e h
  ]

health_of-HasError :
    (e : Option ProtocolError) (c : Bool) → is_some e ≡ true → is_degraded (health_of e c) ≡ true
health_of-HasError (some e) c h = refl
health_of-HasError none true h = cc
health_of-HasError none false h = cc

-- Once an error of the protocol is on record, `health_check` reports `degraded` for ever: whatever
-- happens afterwards, good frames, heartbeats and the loss of the controller included, it reports
-- neither `ok` nor `down`.
pub health_check-degraded :
    (s : Setup) (hs : List Happening) (now : ℕ) (r : Receiver)
    → is_some r.link.protocol_error ≡ true
    → is_degraded (health_check s now (happen_all s hs r).link).1 ≡ true
unfolding health_check apply_heartbeat_timeout
health_check-degraded s hs now r h =
    let l = (happen_all s hs r).link in
    let keeps = happen_all_keeps s HasError (HasError-Closed s) (HasError-ClosedOutside s) hs r h in
    let o = after_silence s now l.connected l in
    health_of-HasError o.protocol_error o.connected (silence-HasError s now l.connected l keeps)
