-- ===== src/Esp32/Life/Waiting.antt =====
-- The numbers that await an ack (`send` of packages/esp32-link/src/doorboard_esp32_link/esp32.py).
use doorboard.Prelude.{
  ℕ, ◌≡◌, refl, ap, ◌∙◌, Bool, true, false, Option, none, Bool-cases, inl, inr, List, [], ◌∷◌, ◌++◌,
  length, leb, ◌==◌, ==_iff, if◌then◌else◌,
}
use doorboard.Esp32.Wire.{WireMessage, ack_required}
use doorboard.Esp32.Link.{
  Reason, Setup, Link, same, set_connected, put_event, next_seq, receive_error,
}
use doorboard.Esp32.Link.Inbound.{resolved}
use doorboard.Esp32.Frames.{Receiver, on_link}
use doorboard.Esp32.Send.{
  Pending, Arrivals, awaits, forget, attempts, add_pending, written_once, write_on, send,
}
use doorboard.Esp32.Life.{Closed}
use doorboard.Esp32.Life.Happenings.{ClosedAttempt, attempts_keep, write_on_keeps}

abbrev pub awaited : Pending → List ℕ
awaited [] = []
awaited ((n, f) ∷ fs) = n ∷ awaited fs

awaited-resolved : (m : WireMessage) (a : ℕ) (p : Pending) → awaited (resolved m a p) ≡ awaited p
awaited-resolved m a [] = refl
awaited-resolved m a ((n, f) ∷ fs) = ap (λ r. n ∷ r) (awaited-resolved m a fs)

awaited-append :
    (p : Pending) (n : ℕ) (f : Option WireMessage)
    → awaited (p ++ (n, f) ∷ []) ≡ awaited p ++ n ∷ []
awaited-append [] n f = refl
awaited-append ((m, g) ∷ fs) n f = ap (λ r. m ∷ r) (awaited-append fs n f)

-- Without the number `n`.
without : ℕ → List ℕ → List ℕ
without n [] = []
without n (m ∷ ms) = let rest = without n ms in if m == n then rest else m ∷ rest

awaited-forget : (n : ℕ) (p : Pending) → awaited (forget n p) ≡ without n (awaited p)
unfolding without
awaited-forget n [] = refl
awaited-forget n ((m, f) ∷ fs) = elim (Bool-cases (m == n)) [
  | inl e ↦ rw e (awaited-forget n fs)
  | inr e ↦ rw e (ap (λ r. m ∷ r) (awaited-forget n fs))
]

without_last :
    (n : ℕ) (p : Pending) → awaits n p ≡ false → without n (awaited p ++ n ∷ []) ≡ awaited p
unfolding without
without_last n [] h = rw ((==_iff n n).1 refl) refl
without_last n ((m, f) ∷ fs) h = elim (Bool-cases (m == n)) [
  | inl e ↦ absurd (cc (rw e at h))
  | inr e ↦ rw e (ap (λ r. m ∷ r) (without_last n fs (rw e at h)))
]

-- The numbers awaited are those of the list.
abbrev pub AwaitedAre : List ℕ → Link → Type 0
AwaitedAre ns l = awaited l.pending_acks ≡ ns

module _ (s : Setup) (ns : List ℕ) where
  set_connected-AwaitedAre :
      (now : ℕ) (c : Bool) (reason : Reason) (l : Link)
      → AwaitedAre ns l
      → AwaitedAre ns (set_connected s now c reason l)
  unfolding set_connected
  set_connected-AwaitedAre now c reason l h = elim (Bool-cases (same l.connected c)) [
    | inl e ↦ rw e h
    | inr e ↦ rw e h
  ]

  AwaitedAre-Closed : Closed s (AwaitedAre ns)
  unfolding receive_error next_seq put_event
  AwaitedAre-Closed = record {
    on_error = λ e l h. h;
    on_ack = λ m a l h. awaited-resolved m a l.pending_acks ∙ h;
    on_dedupe = λ d l h. h;
    on_seq = λ l h. h;
    on_lost_frame = λ ws l h. h;
    on_ack_frame = λ n q ws l h. h;
    on_repeat = λ l h. h;
    on_greeting = λ now b fw l h. set_connected-AwaitedAre now true _ _ h;
    on_beat = λ now l h. set_connected-AwaitedAre now true _ _ h;
    on_event = λ e l h. h;
    on_loss = λ now reason l h. set_connected-AwaitedAre now false reason l h;
    on_failure = λ l h. h;
  }

  AwaitedAre-ClosedAttempt : ClosedAttempt (AwaitedAre ns)
  AwaitedAre-ClosedAttempt = record {
    on_own_frame = λ m ws l h. h;
    on_retry = λ l h. h;
    on_timeout = λ l h. h;
  }

written_once-AwaitedAre :
    (ns : List ℕ) (o : Receiver × Bool)
    → AwaitedAre ns o.0.link
    → AwaitedAre ns (written_once o).0.link
written_once-AwaitedAre ns (r, true) h = h
written_once-AwaitedAre ns (r, false) h = h

-- However a send ends, by its ack, by the last timeout, by a write that fails, or refused because the
-- number is awaited already or too many are, and whatever arrives meanwhile: afterwards the link
-- awaits the acks of the numbers that it awaited before, in the same order, and of no other.
pub send-awaited :
    (s : Setup) (m : WireMessage) (during : ℕ → Arrivals) (r : Receiver)
    → awaited (send s m during r).0.link.pending_acks ≡ awaited r.link.pending_acks
unfolding send
send-awaited s m during r = elim (Bool-cases (ack_required m.message_type)) [
  | inr e ↦ rw e (
      written_once-AwaitedAre (awaited r.link.pending_acks) (write_on s m r) (
        write_on_keeps s (AwaitedAre (awaited r.link.pending_acks))
          (AwaitedAre-Closed s (awaited r.link.pending_acks))
          (AwaitedAre-ClosedAttempt s (awaited r.link.pending_acks)) m r refl))
  | inl e ↦ rw e (elim (Bool-cases (awaits m.seq r.link.pending_acks)) [
    | inl f ↦ rw f refl
    | inr f ↦ rw f (elim (Bool-cases (leb s.max_pending_acks (length r.link.pending_acks))) [
      | inl g ↦ rw g refl
      | inr g ↦ rw g (tracked f)
    ])
  ])
]
  where
    tracked :
        awaits m.seq r.link.pending_acks ≡ false
        → awaited (
            forget m.seq
              (attempts s m during s.max_retries 0
                (on_link (add_pending m.seq) r)).0.link.pending_acks)
          ≡ awaited r.link.pending_acks
    tracked f =
        let q = on_link (add_pending m.seq) r in
        let ns = awaited r.link.pending_acks ++ m.seq ∷ [] in
        let o = attempts s m during s.max_retries 0 q in
        let kept : awaited o.0.link.pending_acks ≡ ns =
          attempts_keep s (AwaitedAre ns) (AwaitedAre-Closed s ns) (AwaitedAre-ClosedAttempt s ns) m
            during s.max_retries 0 q (awaited-append r.link.pending_acks m.seq none) in
        awaited-forget m.seq o.0.link.pending_acks
        ∙ ap (without m.seq) kept
        ∙ without_last m.seq r.link.pending_acks f
