-- ===== src/Esp32/Life/Press.antt =====
-- A press, a knock or a contact that is sent again (`_handle_line` of
-- packages/esp32-link/src/doorboard_esp32_link/esp32.py).
use doorboard.Prelude.{ℕ, max, ◌≡◌, Bool, true, false, if◌then◌else◌}
use doorboard.Esp32.Wire.{MessageType, button_event, knock_event, contact_event, Result, ok, err}
use doorboard.Esp32.Dedupe.{Dedupe}
use doorboard.Esp32.Link.{EventType, Event, Setup, Link, put_latest}
use doorboard.Esp32.Link.Inbound.{Inbound}

-- The frames that tell of the door.
abbrev pub is_door_event : MessageType → Bool
is_door_event button_event = true
is_door_event knock_event = true
is_door_event contact_event = true
is_door_event _ = false

module _ (s : Setup) where
  at_time : ℕ → Event → Event
  at_time now e = record e { monotonic_ms = now }

  type_of : Result Event → EventType → EventType
  type_of (ok e) t = e.event_type
  type_of (err x) t = t

  -- What the handlers of a door event read of the link is the same.
  record Same (l q : Link) : Type 0 where
    events : q.events ≡ l.events
    dedupe : q.dedupe ≡ l.dedupe
    boot : q.peer_boot_id ≡ l.peer_boot_id

  -- The first time: the event is in the queue, unless the handler raised.
  record First (l q : Link) (d : Dedupe) (e : Event) (raised : Bool) : Type 0 where
    events :
        q.events ≡ (if raised then l.events else put_latest (max 1 s.event_queue_size) e l.events)
    dedupe : q.dedupe ≡ d
    boot : q.peer_boot_id ≡ l.peer_boot_id
