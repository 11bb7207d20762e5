-- ===== src/Door/Tests.antt =====
-- The door's theorems at concrete inputs (apps/door-api/src/door_api/session.py and
-- persistence.py).
use doorboard.Prelude.{
  ℕ, ◌+◌, ◌*◌, ◌≤◌, ◌<◌, ◌≡◌, refl, ◌⊎◌, Bool, true, false, Option, none, some, List, [], ◌∷◌,
  arith, length, map, ◌-◌,
}
use doorboard.Contracts
use doorboard.Contracts.{
  SessionState, idle, approach_detected, button_pressed, visitor_mode, ringing, unanswered_timeout,
  video_message_offered, session_end, state_eq, contains, legal,
}
use doorboard.Door.Outbox.{Outbox, Item, next_event}
use doorboard.Door.Outbox.Laws as Laws
use doorboard.Door.Outbox.Laws.{
  Op, run_ops, run_ops-IsValid, enqueue_keeps_order, complete-next, retry-next,
}
use doorboard.Door.Store.{
  object, PersistedSession, SessionStore, Keyed, deliver, save_with_delivery_events, deliver, save,
}
use doorboard.Door.Session.Types.{
  SessionConfig, default_config, Event, Draw, Machine, Request, plain, returned, button,
}
use doorboard.Door.Session.Timers.{schedule, cancel_timer}
use doorboard.Door.Session.Transition.{
  set_identity, enter, emit, write, publish, execute, transition, persisted, refuse,
}
use doorboard.Door.Session.Handlers.{
  waiting, rung, offer_reply, offer_after_ring, offer_from_ringing, offer_from_visitor,
  offer_from_pressed, handle_button_pressed, handle_video_message_offer, handle_admin_reset, fire,
}
use doorboard.Door.Session.Recipients.{Text, clean, strip, normalize_recipients}
use doorboard.Door.Session.Recipients.Laws.{
  IsClean, IsComplete, normalize_recipients-IsClean, normalize_recipients-IsComplete,
}
use doorboard.Door.Session.Restore.{fresh, restore}
use doorboard.Door.Session.Commands
use doorboard.Door.Session.Commands.{Command, video_message_offer, restart, reboot, perform, run}
use doorboard.Door.Session.Invariant.{HasOutboxes, IsValid}
use doorboard.Door.Session.Invariant.Runs.{fresh-IsValid, perform-IsValid, run-IsValid}
use doorboard.Door.Session.Expiry.{timers_left, time_left, expire, waited, expire-idle}
use doorboard.Door.Session.Answered.{
  Remembers, run-Remembers, answered_in, offer_outcome, LastPayloads, offer-expiry,
}
use doorboard.Door.Session.Press.{Reaches, press-outcome}
use doorboard.Door.Session.Rungs.{hops}
use doorboard.Door.Session.Offer.{offer-outcome}
use doorboard.Door.Session.Reset.{rung_open, ReportsReset, admin_reset-outcome}
use doorboard.Door.Session.Resume.{IsOver, continued, too_old, restart-outcome}

abbrev settings : SessionConfig
settings = default_config

abbrev environment : ℕ → Draw
environment n = record {
  now_ms = 1000 * n;
  session_uuid = 100 + n;
  trace_uuid = 200 + n;
  boot_id = "boot";
  epoch = 5000 * n;
  changed = record { event_id = 3 * n; occurred_at = n };
  started = record { event_id = 3 * n + 1; occurred_at = n };
  ended = record { event_id = 3 * n + 2; occurred_at = n };
}

abbrev empty_outbox : Outbox Event
empty_outbox = record { rows = []; dropped_total = 0; max_rows = 2 }

abbrev store : SessionStore Event
store = record { row = none; media = empty_outbox; sync = empty_outbox }

empty_outbox-IsValid : Laws.IsValid empty_outbox
empty_outbox-IsValid = record { unique = tt; bounded = omega arith; positive = omega arith }

store-HasOutboxes : HasOutboxes store
store-HasOutboxes = record { media = empty_outbox-IsValid; sync = empty_outbox-IsValid }

abbrev machine : Machine
machine = fresh store

machine-IsValid : IsValid settings machine
machine-IsValid = fresh-IsValid settings store store-HasOutboxes refl

-- A visitor touches the screen, which leads up to the offer of a message.
abbrev commands : List Command
commands = video_message_offer none "doorpad:touch" ∷ []

abbrev offered : Machine
offered = run settings environment commands machine

offered-IsValid : IsValid settings offered
offered-IsValid = run-IsValid settings environment commands machine machine-IsValid

offered_state : offered.state ≡ video_message_offered
unfolding run perform handle_video_message_offer rung offer_reply offer_after_ring
    offer_from_ringing offer_from_visitor offer_from_pressed handle_button_pressed transition
    execute set_identity enter cancel_timer publish emit write schedule legal
offered_state = refl

abbrev offered_row : PersistedSession
offered_row = record {
  session_id = 100;
  state = video_message_offered;
  trace_id = 200;
  person_id = none;
  display_name = none;
  profile_id = none;
  started_at_monotonic_ms = 0;
  last_transition_monotonic_ms = 4000;
  meta_json = object none none (some false) (some false) (some "boot");
}

offered_stored : offered.store.row ≡ some offered_row
unfolding run perform handle_video_message_offer rung offer_reply offer_after_ring
    offer_from_ringing offer_from_visitor offer_from_pressed handle_button_pressed transition
    execute set_identity enter cancel_timer publish emit write schedule legal
    save_with_delivery_events deliver save persisted
offered_stored = refl

run-IsValid_example : IsValid settings (run settings environment commands machine)
run-IsValid_example = run-IsValid settings environment commands machine machine-IsValid

perform-IsValid_example :
    IsValid settings (perform settings environment Commands.fire offered).0
    × ((b : Bool) × ((perform settings environment Commands.fire offered).1 ≡ returned b))
perform-IsValid_example = perform-IsValid settings environment Commands.fire offered offered-IsValid

run-Remembers_example : Remembers (run settings environment commands (fresh store))
run-Remembers_example = run-Remembers settings environment commands store store-HasOutboxes refl

abbrev press : Request
press = plain button_pressed "doorpad:button"

offered_active : state_eq offered.state button_pressed ≡ false
offered_active = rw offered_state refl

expire-idle_example :
    ((expire settings environment (timers_left offered.state) offered).state ≡ idle)
    × (timers_left offered.state ≤ 5)
    × (waited settings environment (timers_left offered.state) offered
        ≤ time_left settings offered.state)
expire-idle_example = expire-idle settings environment offered offered-IsValid offered_active

offer-expiry_example :
    (session : ℕ) × LastPayloads offered
      (fire settings environment offered).0.events
      session
      video_message_offered
      (offer_outcome (answered_in false offered.events))
offer-expiry_example =
    offer-expiry settings environment commands store store-HasOutboxes refl offered_state

press-outcome_example :
    ((contains waiting machine.state ≡ true)
      × Reaches settings machine visitor_mode 2 (
          handle_button_pressed settings environment none "doorpad:button" button none none
            machine))
    ⊎ ((contains waiting machine.state ≡ false)
        × (handle_button_pressed settings environment none "doorpad:button" button none none machine
            ≡ (machine, returned false)))
press-outcome_example =
    press-outcome settings environment none "doorpad:button" button none none machine
      machine-IsValid

offer-outcome_example :
    ((n : ℕ) × (hops machine.state ≡ some n)
      × Reaches settings machine video_message_offered n
          (handle_video_message_offer settings environment none "doorpad:touch" machine))
    ⊎ ((hops machine.state ≡ none)
        × (handle_video_message_offer settings environment none "doorpad:touch" machine
            ≡ (machine, returned false)))
offer-outcome_example =
    offer-outcome settings environment none "doorpad:touch" machine machine-IsValid

admin_reset-outcome_example :
    ((rung_open offered.state ≡ true)
      × Reaches settings offered session_end 1 (handle_admin_reset settings environment offered)
      × ReportsReset offered (handle_admin_reset settings environment offered).0)
    ⊎ (((offered.state ≡ session_end)
          × Reaches settings offered idle 1 (handle_admin_reset settings environment offered))
        ⊎ (((offered.state ≡ idle)
              × (handle_admin_reset settings environment offered ≡ (offered, returned false)))
            ⊎ ((contains (approach_detected ∷ Contracts.identity_cached ∷ []) offered.state ≡ true)
                × (handle_admin_reset settings environment offered
                    ≡ (refuse offered, returned false)))))
admin_reset-outcome_example = admin_reset-outcome settings environment offered offered-IsValid

restart-outcome_example :
    ((too_old settings environment 9000 "boot" offered_row ≡ false)
      × (restore settings environment 9000 "boot" (reboot offered)
          ≡ (continued settings (9000 - offered.last_transition_mono_ms) offered, returned false)))
    ⊎ ((too_old settings environment 9000 "boot" offered_row ≡ true)
        × IsOver settings (restore settings environment 9000 "boot" (reboot offered)))
restart-outcome_example =
    restart-outcome settings environment 9000 "boot" offered_row offered offered-IsValid
      offered_stored

-- An outbox with room for two events, of which it has two.
abbrev full : Outbox ℕ
full = record {
  rows =
      record {
        event_id = 1;
        event = 10;
        attempts = 0;
        next_attempt_epoch = 0;
        created_epoch = 5;
        last_error = none;
      }
      ∷ record {
        event_id = 2;
        event = 20;
        attempts = 0;
        next_attempt_epoch = 0;
        created_epoch = 6;
        last_error = none;
      }
      ∷ [];
  dropped_total = 0;
  max_rows = 2;
}

full-IsValid : Laws.IsValid full
full-IsValid = record { unique = (refl, (refl, tt)); bounded = omega arith; positive = omega arith }

abbrev operations : List (Op ℕ)
operations = Laws.enqueue 3 30 7 ∷ Laws.complete 2 ∷ Laws.retry 3 1 60 "down" ∷ []

run_ops-IsValid_example : Laws.IsValid (run_ops operations full)
run_ops-IsValid_example = run_ops-IsValid operations full full-IsValid

abbrev first_item : Item ℕ
first_item = record { event_id = 1; event = 10; attempts = 0 }

first_is_next : next_event full 50 ≡ some first_item
unfolding next_event
first_is_next = refl

abbrev keyed_event : ℕ → Keyed ℕ
keyed_event n = record { event_id = n; event = 10 * n }

abbrev two_outboxes : SessionStore ℕ
two_outboxes = record { row = none; media = full; sync = full }

-- ` adam` and a repetition of it, an empty entry and a number.
abbrev recipients : List (Option Text)
recipients =
    some (32 ∷ 97 ∷ 100 ∷ 97 ∷ 109 ∷ []) ∷ some [] ∷ none ∷ some (97 ∷ 100 ∷ 97 ∷ 109 ∷ []) ∷ []

abbrev adam : List Text
adam = (97 ∷ 100 ∷ 97 ∷ 109 ∷ []) ∷ []

only_adam : normalize_recipients (some recipients) ≡ some adam
unfolding normalize_recipients clean strip
only_adam = refl

normalize_recipients-IsClean_example : (0 < length adam) × IsClean adam
normalize_recipients-IsClean_example =
    normalize_recipients-IsClean (some recipients) {ks = adam} only_adam

normalize_recipients-IsComplete_example :
    IsComplete recipients adam × (normalize_recipients (some (map some adam)) ≡ some adam)
normalize_recipients-IsComplete_example =
    normalize_recipients-IsComplete recipients {ks = adam} only_adam
