-- ===== src/Esp32/Life/Counts.antt =====
-- How often a message is written, and what is counted (`send` of
-- packages/esp32-link/src/doorboard_esp32_link/esp32.py).
use doorboard.Prelude.{
  ℕ, zero, suc, ◌+◌, ◌≤◌, ◌≡◌, refl, ap, ◌∙◌, sym, Bool, true, false, Option, none, some,
  Bool-cases, inl, inr, List, [], ◌∷◌, ◌++◌, ltb, arith, if◌then◌else◌, if-true, subst, leb, length,
}
use doorboard.Esp32.Wire.{WireMessage, ack, no_fields, ack_required, max_frame_bytes}
use doorboard.Esp32.Link.{
  Reason, Setup, Link, same, set_connected, numbered, put_event, put_frame, next_seq, receive_error,
  write_message,
}
use doorboard.Esp32.Frames.{Receiver, on_link}
use doorboard.Esp32.Send.{
  Arrivals, Sent, unacknowledged, acknowledged, already_awaiting, too_many, timed_out, write_failed,
  arrive, answer_of, unless_answered, wait_for, write_on, attempts, count_retry, count_timeout,
  send, awaits, add_pending,
}
use doorboard.Esp32.Life.{Closed, put, arrive_keeps}

-- The frames that went out and are to be acknowledged.
abbrev pub sends : List WireMessage → ℕ
sends [] = 0
sends (m ∷ ms) = let rest = sends ms in if ack_required m.message_type then suc rest else rest

pub record Counts : Type 0 where
  pub sent : ℕ
  pub retries : ℕ
  pub timeouts : ℕ

abbrev pub counts : Link → Counts
counts l = record { sent = sends l.written; retries = l.tx_retries; timeouts = l.tx_timeouts }

-- What an end of the attempts says of the counts, where `left` attempts may follow the first.
abbrev pub Accounts : ℕ → Counts → Counts → Sent → Type 0
Accounts left c d timed_out =
    (d.sent ≡ c.sent + suc left) × (d.retries ≡ c.retries + left) × (d.timeouts ≡ suc c.timeouts)
Accounts left c d (acknowledged a) =
    (d.sent + c.retries ≡ suc (c.sent + d.retries))
    × (d.retries ≤ c.retries + left)
    × (d.timeouts ≡ c.timeouts)
Accounts left c d write_failed =
    (d.sent + c.retries ≡ c.sent + d.retries)
    × (d.retries ≤ c.retries + left)
    × (d.timeouts ≡ c.timeouts)
Accounts left c d already_awaiting = d ≡ c
Accounts left c d too_many = d ≡ c
Accounts left c d unacknowledged = d ≡ c

sends-append :
    (ms : List WireMessage) (m : WireMessage)
    → sends (ms ++ m ∷ []) ≡ (if ack_required m.message_type then suc (sends ms) else sends ms)
sends-append [] m = refl
sends-append (x ∷ xs) m = elim (Bool-cases (ack_required x.message_type)) [
  | inl e ↦ rw (e, sends-append xs m) (pull (ack_required m.message_type))
  | inr e ↦ rw (e, sends-append xs m) refl
]
  where
    pull :
        (b : Bool)
        → suc (if b then suc (sends xs) else sends xs)
          ≡ (if b then suc (suc (sends xs)) else suc (sends xs))
    pull true = refl
    pull false = refl

CountsAre : Counts → Link → Type 0
CountsAre c l = counts l ≡ c

module _ (s : Setup) (c : Counts) where
  set_connected-counts :
      (now : ℕ) (b : Bool) (reason : Reason) (l : Link)
      → CountsAre c l
      → CountsAre c (set_connected s now b reason l)
  unfolding set_connected CountsAre
  set_connected-counts now b reason l h = elim (Bool-cases (same l.connected b)) [
    | inl e ↦ rw e h
    | inr e ↦ rw e h
  ]

  with_sent : ℕ → Link → Counts
  with_sent n l = record { sent = n; retries = l.tx_retries; timeouts = l.tx_timeouts }

  ack_frame-counts :
      (n : Option ℕ) (q : Link) (ws : List Bool) (l : Link)
      → CountsAre c l
      → CountsAre c (put (numbered ack n no_fields q) ws l)
  unfolding CountsAre with_sent ack_required
  ack_frame-counts n q ws l h =
      ap (λ k. with_sent k l) (sends-append l.written (numbered ack n no_fields q)) ∙ h

  CountsAre-Closed : Closed s (CountsAre c)
  unfolding receive_error next_seq put_event CountsAre
  CountsAre-Closed = record {
    on_error = λ e l h. h;
    on_ack = λ m a l h. h;
    on_dedupe = λ d l h. h;
    on_seq = λ l h. h;
    on_lost_frame = λ ws l h. h;
    on_ack_frame = ack_frame-counts;
    on_repeat = λ l h. h;
    on_greeting = λ now b fw l h. set_connected-counts now true _ _ h;
    on_beat = λ now l h. set_connected-counts now true _ _ h;
    on_event = λ e l h. h;
    on_loss = λ now reason l h. set_connected-counts now false reason l h;
    on_failure = λ l h. h;
  }

arrive-counts :
    (s : Setup) (cs : Arrivals) (r : Receiver) → counts (arrive s cs r).link ≡ counts r.link
unfolding CountsAre
arrive-counts s cs r =
    arrive_keeps s (CountsAre (counts r.link)) (CountsAre-Closed s (counts r.link)) cs r refl

-- After a write: one more frame, or, where it raised, none.
abbrev pub Wrote : Counts → Counts → Bool → Type 0
Wrote c d true = d ≡ c
Wrote c d false = d ≡ record c { sent = suc c.sent }

put_frame-Wrote :
    (m : WireMessage) (ws : List Bool) (l : Link)
    → ack_required m.message_type ≡ true
    → Wrote (counts l) (counts (put_frame m ws l).0) (put_frame m ws l).1
put_frame-Wrote m ws l h = go ws
  where
    more :
        (q : Link)
        → counts (record q { written = q.written ++ m ∷ [] })
          ≡ record (counts q) { sent = suc (sends q.written) }
    more q =
        ap (λ n. record (counts q) { sent = n })
          (sends-append q.written m
            ∙ if-true (ack_required m.message_type) (suc (sends q.written)) (sends q.written) h)

    go : (ws : List Bool) → Wrote (counts l) (counts (put_frame m ws l).0) (put_frame m ws l).1
    go [] = more l
    go (true ∷ ws) = more l
    go (false ∷ ws) = refl

write_message-Wrote :
    (s : Setup) (m : WireMessage) (l : Link)
    → ack_required m.message_type ≡ true
    → Wrote (counts l) (counts (write_message s m l).0) (write_message s m l).1
unfolding write_message
write_message-Wrote s m l h = elim (Bool-cases (ltb max_frame_bytes (s.frame_length m))) [
  | inl e ↦ rw e refl
  | inr e ↦ rw e (put_frame-Wrote m l.writes l h)
]

-- The ends that the attempts have.
abbrev pub was_tried : Sent → Bool
was_tried timed_out = true
was_tried (acknowledged a) = true
was_tried write_failed = true
was_tried _ = false

Tried : ℕ → Counts → Counts → Sent → Type 0
Tried left c d o = Accounts left c d o × (was_tried o ≡ true)

-- After one frame more and one retry more.
abbrev pub again : Counts → Counts
again c = record c { sent = suc c.sent; retries = suc c.retries }

one_more : (left : ℕ) (c d : Counts) (o : Sent) → Tried left (again c) d o → Tried (suc left) c d o
unfolding Tried
one_more left c d timed_out (h, t) = ((omega (arith, h.0), omega (arith, h.1), h.2), refl)
one_more left c d (acknowledged a) (h, t) = ((omega (arith, h.0), omega (arith, h.1), h.2), refl)
one_more left c d write_failed (h, t) = ((omega (arith, h.0), omega (arith, h.1), h.2), refl)
one_more left c d already_awaiting (h, t) = cc (t)
one_more left c d too_many (h, t) = cc (t)
one_more left c d unacknowledged (h, t) = cc (t)

module _ (s : Setup) where
  -- One attempt, where what follows is given.
  wait_for-Tried :
      (left n : ℕ) (cs : Arrivals) (c : Counts) (w : Receiver × Bool)
      (next : Receiver → Receiver × Sent)
      → Wrote c (counts w.0.link) w.1
      → ((q : Receiver)
          → counts q.link ≡ record c { sent = suc c.sent }
          → Tried left c (counts (next q).0.link) (next q).1)
      → Tried left c (counts (wait_for s n cs w next).0.link) (wait_for s n cs w next).1
  unfolding Tried
  wait_for-Tried left n cs c (r, true) next h k =
      subst (λ d. Accounts left c d write_failed × (true ≡ true)) (sym h)
        ((omega arith, omega arith, refl), refl)
  wait_for-Tried left n cs c (r, false) next h k =
      answered (answer_of n (arrive s cs r).link.pending_acks) (arrive s cs r)
        (arrive-counts s cs r ∙ h)
    where
      answered :
          (a : Option WireMessage) (q : Receiver)
          → counts q.link ≡ record c { sent = suc c.sent }
          → Accounts left c (counts (unless_answered a q next).0.link) (unless_answered a q next).1
            × (was_tried (unless_answered a q next).1 ≡ true)
      answered none q e = k q e
      answered (some a) q e =
          subst (λ d. Accounts left c d (acknowledged a) × (true ≡ true)) (sym e)
            ((omega arith, omega arith, refl), refl)

  attempts-Tried :
      (m : WireMessage) (during : ℕ → Arrivals) (left k : ℕ) (r : Receiver)
      → ack_required m.message_type ≡ true
      → Tried left
          (counts r.link)
          (counts (attempts s m during left k r).0.link)
          (attempts s m during left k r).1
  unfolding attempts Tried
  attempts-Tried m during zero k r h =
      wait_for-Tried zero m.seq (during k) (counts r.link) (write_on s m r)
        (λ q. (on_link count_timeout q, timed_out)) (write_message-Wrote s m r.link h)
        (λ q e.
          subst
            (λ d.
              Accounts 0 (counts r.link) (record d { timeouts = suc d.timeouts }) timed_out
              × (true ≡ true))
            (sym e) ((omega arith, omega arith, refl), refl))
  attempts-Tried m during (suc left) k r h =
      wait_for-Tried (suc left) m.seq (during k) (counts r.link) (write_on s m r)
        (λ q. attempts s m during left (suc k) (on_link count_retry q))
        (write_message-Wrote s m r.link h)
        (λ q e.
          let o = attempts s m during left (suc k) (on_link count_retry q) in
          one_more left (counts r.link) (counts o.0.link) o.1 (
            subst (λ d. Tried left (record d { retries = suc d.retries }) (counts o.0.link) o.1) e
              (attempts-Tried m during left (suc k) (on_link count_retry q) h)))

-- What a send that is to be acknowledged counts, whatever arrives while it waits. A timeout: the
-- message was written once and again for each of the retries allowed, each retry was counted, and
-- one timeout. An ack: no timeout was counted, and the message was written once more than retries
-- were counted, which are at most those allowed. A write that fails: the message was written as
-- often as retries were counted. Refused at the start, nothing was written or counted.
pub send-Accounts :
    (s : Setup) (m : WireMessage) (during : ℕ → Arrivals) (r : Receiver)
    → ack_required m.message_type ≡ true
    → Accounts s.max_retries
        (counts r.link)
        (counts (send s m during r).0.link)
        (send s m during r).1
unfolding send Tried
send-Accounts s m during r h = rw h (elim (Bool-cases (awaits m.seq r.link.pending_acks)) [
  | inl f ↦ rw f refl
  | inr f ↦ rw f (elim (Bool-cases (leb s.max_pending_acks (length r.link.pending_acks))) [
    | inl g ↦ rw g refl
    | inr g ↦ rw g (attempts-Tried s m during s.max_retries 0 (on_link (add_pending m.seq) r) h).0
  ])
])
