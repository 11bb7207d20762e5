-- ===== src/Esp32/Life/Sound.antt =====
-- The queues and the connection through the life of the link
-- (packages/esp32-link/src/doorboard_esp32_link/esp32.py).
use doorboard.Prelude.{
  ℕ, suc, ◌≤◌, max, ◌≡◌, refl, ap, ◌∙◌, sym, Bool, true, false, not, some, is_some, inl, inr, ◌⊎◌,
  Bool-cases, List, [], ◌∷◌, ◌++◌, length, length-append, leb, arith,
}
use doorboard.Esp32.Link.{
  Reason, by_hello, by_heartbeat, Event, LinkState, Setup, Link, tail, put_latest, put_event, same,
  set_connected, next_seq, receive_error,
}
use doorboard.Esp32.Life.{Closed}
use doorboard.Esp32.Life.Happenings.{Happening, happen_all, made, ClosedOutside, happen_all_keeps}

-- The states of the connection alternate, and the last is `c`.
abbrev pub Alternates : Bool → List LinkState → Type 0
Alternates c [] = Unit
Alternates c (x ∷ []) = x.connected ≡ c
Alternates c (x ∷ y ∷ ys) = (x.connected ≡ not y.connected) × Alternates c (y ∷ ys)

-- The two queues fit, the states that wait alternate up to the present one, and who is connected
-- was heard.
pub record Sound (s : Setup) (l : Link) : Type 0 where
  pub events_fit : length l.events ≤ max 1 s.event_queue_size
  pub states_fit : length l.link_states ≤ max 1 s.link_state_queue_size
  pub alternates : Alternates l.connected l.link_states
  pub heard : (l.connected ≡ false) ⊎ (is_some l.last_heartbeat_mono_ms ≡ true)

length-tail {ℓ} : {A : Type ℓ} (xs : List A) → length (tail xs) ≤ length xs
length-tail [] = omega arith
length-tail (x ∷ xs) = omega arith

length-put_latest {ℓ} :
    {A : Type ℓ} (size : ℕ) (x : A) (q : List A)
    → 1 ≤ size
    → length q ≤ size
    → length (put_latest size x q) ≤ size
length-put_latest {A = A} size x q one h = elim (Bool-cases (leb size (length q))) [
  | inl e ↦ rw e (shorter q one h)
  | inr e ↦ rw e (let lt = below size (length q) e in omega (arith, lt, length-append q (x ∷ [])))
]
  where
    below : (a b : ℕ) → leb a b ≡ false → suc b ≤ a
    below a b h = ground arith

    shorter : (q : List A) → 1 ≤ size → length q ≤ size → length (tail q ++ x ∷ []) ≤ size
    shorter [] one h = omega (arith, one)
    shorter (y ∷ ys) one h = omega (arith, h, length-append ys (x ∷ []))

tail-Alternates : (c : Bool) (xs : List LinkState) → Alternates c xs → Alternates c (tail xs)
tail-Alternates c [] h = h
tail-Alternates c (x ∷ []) h = tt
tail-Alternates c (x ∷ y ∷ ys) h = h.1

snoc-Alternates :
    (c : Bool) (e : LinkState) (xs : List LinkState)
    → e.connected ≡ not c
    → Alternates c xs
    → Alternates e.connected (xs ++ e ∷ [])
snoc-Alternates c e [] he h = refl
snoc-Alternates c e (x ∷ []) he h = (h ∙ not_not c ∙ ap not (sym he), refl)
  where
    not_not : (b : Bool) → b ≡ not (not b)
    not_not true = refl
    not_not false = refl
snoc-Alternates c e (x ∷ y ∷ ys) he h = (h.0, snoc-Alternates c e (y ∷ ys) he h.1)

put_latest-Alternates :
    (size : ℕ) (c : Bool) (e : LinkState) (xs : List LinkState)
    → e.connected ≡ not c
    → Alternates c xs
    → Alternates e.connected (put_latest size e xs)
put_latest-Alternates size c e xs he h = elim (Bool-cases (leb size (length xs))) [
  | inl t ↦ rw t (snoc-Alternates c e (tail xs) he (tail-Alternates c xs h))
  | inr t ↦ rw t (snoc-Alternates c e xs he h)
]

differs : (a b : Bool) → same a b ≡ false → b ≡ not a
differs true true h = cc
differs true false h = refl
differs false true h = refl
differs false false h = cc

module _ (s : Setup) where
  put_event-Sound : (e : Event) (l : Link) → Sound s l → Sound s (put_event s e l)
  unfolding put_event
  put_event-Sound e l h = record {
    events_fit = length-put_latest (max 1 s.event_queue_size) e l.events (omega arith) h.events_fit;
    states_fit = h.states_fit;
    alternates = h.alternates;
    heard = h.heard;
  }

  set_connected-Sound :
      (now : ℕ) (c : Bool) (reason : Reason) (l : Link)
      → (c ≡ false) ⊎ (is_some l.last_heartbeat_mono_ms ≡ true)
      → Sound s l
      → Sound s (set_connected s now c reason l)
  unfolding set_connected
  set_connected-Sound now c reason l heard h = elim (Bool-cases (same l.connected c)) [
    | inl e ↦ rw e h
    | inr e ↦
        let state : LinkState = record {
          connected = c;
          changed_at_mono_ms = now;
          reason = reason;
        } in
        rw e (record {
          events_fit = h.events_fit;
          states_fit =
              length-put_latest (max 1 s.link_state_queue_size) state l.link_states (omega arith)
                h.states_fit;
          alternates =
              put_latest-Alternates (max 1 s.link_state_queue_size) l.connected state l.link_states
                (differs l.connected c e) h.alternates;
          heard = heard;
        })
  ]

  -- A heartbeat or a greeting that sets the connection.
  connect-Sound :
      (now : ℕ) (reason : Reason) (l : Link)
      → is_some l.last_heartbeat_mono_ms ≡ true
      → length l.events ≤ max 1 s.event_queue_size
      → length l.link_states ≤ max 1 s.link_state_queue_size
      → Alternates l.connected l.link_states
      → Sound s (set_connected s now true reason l)
  connect-Sound now reason l heard ef sf al =
      set_connected-Sound now true reason l (inr heard)
        (record { events_fit = ef; states_fit = sf; alternates = al; heard = inr heard })

  -- A step that leaves the queues and the connection alone.
  untouched :
      (l m : Link)
      → m.events ≡ l.events
      → m.link_states ≡ l.link_states
      → m.connected ≡ l.connected
      → m.last_heartbeat_mono_ms ≡ l.last_heartbeat_mono_ms
      → Sound s l
      → Sound s m
  untouched l m e ls c b h = record {
    events_fit = rw e h.events_fit;
    states_fit = rw ls h.states_fit;
    alternates = rw (ls, c) h.alternates;
    heard = rw (c, b) h.heard;
  }

  Sound-Closed : Closed s (Sound s)
  unfolding receive_error next_seq
  Sound-Closed = record {
    on_error = λ e l h. untouched l (receive_error e l) refl refl refl refl h;
    on_ack = λ m a l h. untouched l _ refl refl refl refl h;
    on_dedupe = λ d l h. untouched l _ refl refl refl refl h;
    on_seq = λ l h. untouched l _ refl refl refl refl h;
    on_lost_frame = λ ws l h. untouched l _ refl refl refl refl h;
    on_ack_frame = λ n q ws l h. untouched l _ refl refl refl refl h;
    on_repeat = λ l h. untouched l _ refl refl refl refl h;
    on_greeting = λ now b fw l h.
        connect-Sound now by_hello
          (record l { peer_boot_id = some b; fw_version = fw; last_heartbeat_mono_ms = some now })
          refl h.events_fit h.states_fit h.alternates;
    on_beat = λ now l h.
        connect-Sound now by_heartbeat (record l { last_heartbeat_mono_ms = some now }) refl
          h.events_fit h.states_fit h.alternates;
    on_event = λ e l h. put_event-Sound e l h;
    on_loss = λ now reason l h. set_connected-Sound now false reason l (inl refl) h;
    on_failure = λ l h. untouched l _ refl refl refl refl h;
  }

  Sound-ClosedOutside : ClosedOutside (Sound s)
  Sound-ClosedOutside = record {
    on_attempt = record {
      on_own_frame = λ m ws l h. untouched l _ refl refl refl refl h;
      on_retry = λ l h. untouched l _ refl refl refl refl h;
      on_timeout = λ l h. untouched l _ refl refl refl refl h;
    };
    on_take_event = λ l h. record {
      events_fit = omega (arith, h.events_fit, length-tail l.events);
      states_fit = h.states_fit;
      alternates = h.alternates;
      heard = h.heard;
    };
    on_take_link_state = λ l h. record {
      events_fit = h.events_fit;
      states_fit = omega (arith, h.states_fit, length-tail l.link_states);
      alternates = tail-Alternates l.connected l.link_states h.alternates;
      heard = h.heard;
    };
    on_add = λ n l h. untouched l _ refl refl refl refl h;
    on_drop = λ n l h. untouched l _ refl refl refl refl h;
  }

-- Whatever is read, sent, looked at and taken, in every order and with every outcome of the writes,
-- each of the two queues stays within its size, which is at least 1; the states that wait in the
-- second alternate between connected and lost, and the last of them is the present one; and a link
-- that is connected has heard a heartbeat or a greeting.
pub happenings-Sound :
    (s : Setup) (ws : List Bool) (hs : List Happening) → Sound s (happen_all s hs (made ws)).link
happenings-Sound s ws hs =
    happen_all_keeps s (Sound s) (Sound-Closed s) (Sound-ClosedOutside s) hs (made ws) (record {
      events_fit = omega arith;
      states_fit = omega arith;
      alternates = tt;
      heard = inl refl;
    })
