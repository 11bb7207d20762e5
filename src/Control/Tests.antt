-- ===== src/Control/Tests.antt =====
-- The theorems of presence at concrete inputs
-- (apps/control-plane-api/src/control_plane_api/presence_engine.py).
use doorboard.Prelude.{◌≡◌, refl, true, false, Option, none, some, [], ◌∷◌}
use doorboard.Control.Presence.{
  busy, at_class, away, sleeping, Source, manual, geofence_label, calendar, is_inferred,
  SourceEntry, source_precedence, resolve_presence, Database, put_value, put_enabled,
}
use doorboard.Control.Presence.Sync.{Calendar, resolve_current}
use doorboard.Control.Presence.Precedence.{Resolves, resolve_presence-Resolves}
use doorboard.Control.Presence.Consent.{resolve_current-private}

abbrev lecture : Calendar
lecture s now = some (record { label = at_class; until = some 90 })

abbrev no_calendar : Calendar
no_calendar s now = none

abbrev entries : Source → Option SourceEntry
entries manual = some (record { label = busy; until = some 15 })
entries geofence_label = some (record { label = away; until = none })
entries _ = none

resolve_presence-Resolves_example :
    Resolves 20 entries source_precedence (resolve_presence entries 20)
resolve_presence-Resolves_example = resolve_presence-Resolves 20 entries

-- At 20 the manual entry is over.
fallen_through :
    resolve_presence entries 20 ≡ record { label = away; source = geofence_label; until = none }
unfolding resolve_presence
fallen_through = refl

-- Ann does not want to be tracked, and her phone said where she is.
abbrev private_data : Database
private_data = record {
  subjects = record { subject_id = "ann"; tracking_enabled = false; updated_at = 1 } ∷ [];
  sources =
      record {
        subject_id = "ann";
        source = geofence_label;
        label = some away;
        until = none;
        enabled = true;
        updated_at = 2;
      }
      ∷ [];
  history =
      record {
        event_id = 1;
        subject_id = "ann";
        label = sleeping;
        source = manual;
        until = none;
        occurred_at = 3;
        recorded_at = 4;
      }
      ∷ [];
  event_ids = 1 ∷ [];
  published = [];
}

resolve_current-private_example :
    (is_inferred (resolve_current lecture "ann" 20 private_data).source ≡ false)
    × (resolve_current no_calendar "ann" 20 private_data
        ≡ resolve_current lecture "ann" 20 private_data)
    × (resolve_current no_calendar "ann" 20
          (put_value "ann" calendar (some busy) none 9 private_data)
        ≡ resolve_current lecture "ann" 20 private_data)
    × (resolve_current no_calendar "ann" 20 (put_enabled "ann" calendar false 9 private_data)
        ≡ resolve_current lecture "ann" 20 private_data)
resolve_current-private_example =
    resolve_current-private lecture no_calendar "ann" 20 9 private_data calendar (some busy) none
      false refl refl
