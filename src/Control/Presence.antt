-- ===== src/Control/Presence.antt =====
-- Where somebody is: the sources, their precedence, and the events of a change
-- (apps/control-plane-api/src/control_plane_api/presence.py and presence_engine.py). A table is the
-- list of its rows in the order of insertion; of rows with equal times the one inserted later counts
-- as the newer. The calendar is an argument, and so is the identifier that an event draws.
pub mod Sync
pub mod Precedence
pub mod Consent
pub mod History
use doorboard.Prelude.{
  ℕ, ◌≤◌, String, Bool, true, false, ◌&&◌, ◌||◌, not, Option, none, some, List, [], ◌∷◌, ◌++◌, map,
  take, ltb, leb, ◌==◌, str_eq, if◌then◌else◌,
}

pub data PresenceLabel : Type 0 where
  available busy do_not_disturb sleeping at_class at_library away unknown : PresenceLabel

pub data Source : Type 0 where
  manual focus_shortcut geofence_label calendar fallback : Source

-- `fallback` is the source "default".
abbrev pub code : Source → ℕ
code manual = 0
code focus_shortcut = 1
code geofence_label = 2
code calendar = 3
code fallback = 4

abbrev pub source_precedence : List Source
source_precedence = manual ∷ focus_shortcut ∷ geofence_label ∷ calendar ∷ fallback ∷ []

abbrev pub same_source : Source → Source → Bool
same_source a b = code a == code b

abbrev pub label_code : PresenceLabel → ℕ
label_code available = 0
label_code busy = 1
label_code do_not_disturb = 2
label_code sleeping = 3
label_code at_class = 4
label_code at_library = 5
label_code away = 6
label_code unknown = 7

abbrev pub named : List (String × Source) → String → Option Source
named [] s = none
named ((name, source) ∷ rest) s = if str_eq s name then some source else named rest s

-- `source not in SOURCE_PRECEDENCE`
abbrev pub source_of : String → Option Source
source_of s =
    named
      (("manual", manual)
        ∷ ("focus_shortcut", focus_shortcut)
        ∷ ("geofence_label", geofence_label)
        ∷ ("calendar", calendar)
        ∷ ("default", fallback)
        ∷ [])
      s

-- Whether a row stores the source's value, and whether the source infers.
abbrev pub is_stored : Source → Bool
is_stored calendar = false
is_stored _ = true

abbrev pub is_inferred : Source → Bool
is_inferred manual = false
is_inferred fallback = false
is_inferred _ = true

pub record SourceEntry : Type 0 where
  pub label : PresenceLabel
  pub until : Option ℕ

pub record ResolvedPresence : Type 0 where
  pub label : PresenceLabel
  pub source : Source
  pub until : Option ℕ

-- `entry.until is not None and entry.until <= now`
abbrev pub expired : ℕ → Option ℕ → Bool
expired now none = false
expired now (some t) = leb t now

abbrev pub resolved_by : ℕ → Source → Option SourceEntry → ResolvedPresence → ResolvedPresence
resolved_by now x none rest = rest
resolved_by now x (some e) rest =
    if expired now e.until then rest else record { label = e.label; source = x; until = e.until }

abbrev pub unresolved : ResolvedPresence
unresolved = record { label = unknown; source = fallback; until = none }

abbrev pub resolve_along : ℕ → (Source → Option SourceEntry) → List Source → ResolvedPresence
resolve_along now entries [] = unresolved
resolve_along now entries (x ∷ xs) = resolved_by now x (entries x) (resolve_along now entries xs)

unfoldable pub resolve_presence : (Source → Option SourceEntry) → ℕ → ResolvedPresence
resolve_presence entries now = resolve_along now entries source_precedence

pub record SubjectRow : Type 0 where
  pub subject_id : String
  pub tracking_enabled : Bool
  pub updated_at : ℕ

pub record SourceRow : Type 0 where
  pub subject_id : String
  pub source : Source
  pub label : Option PresenceLabel
  pub until : Option ℕ
  pub enabled : Bool
  pub updated_at : ℕ

-- A row of the history, and the event that made it.
pub record HistoryRow : Type 0 where
  pub event_id : ℕ
  pub subject_id : String
  pub label : PresenceLabel
  pub source : Source
  pub until : Option ℕ
  pub occurred_at : ℕ
  pub recorded_at : ℕ

-- `event_ids` are the keys of the table of events; `published` is what MQTT was given.
pub record Database : Type 0 where
  pub subjects : List SubjectRow
  pub sources : List SourceRow
  pub history : List HistoryRow
  pub event_ids : List ℕ
  pub published : List HistoryRow

abbrev pub subject_row : String → List SubjectRow → Option SubjectRow
subject_row s [] = none
subject_row s (r ∷ rs) = if str_eq r.subject_id s then some r else subject_row s rs

abbrev pub created : String → ℕ → Option SubjectRow → Database → Database
created s now (some r) d = d
created s now none d = record d {
  subjects =
      d.subjects ++ record { subject_id = s; tracking_enabled = true; updated_at = now } ∷ [];
}

unfoldable pub get_or_create_subject : String → ℕ → Database → Database
get_or_create_subject s now d = created s now (subject_row s d.subjects) d

abbrev pub with_tracking : String → Bool → ℕ → List SubjectRow → List SubjectRow
with_tracking s b now [] = []
with_tracking s b now (r ∷ rs) =
    (if str_eq r.subject_id s then record r { tracking_enabled = b; updated_at = now } else r)
    ∷ with_tracking s b now rs

unfoldable pub set_subject_tracking_enabled : String → Bool → ℕ → Database → Database
set_subject_tracking_enabled s b now d = record (get_or_create_subject s now d) {
  subjects = with_tracking s b now (get_or_create_subject s now d).subjects;
}

abbrev pub is_row : String → Source → SourceRow → Bool
is_row s x r = str_eq r.subject_id s && same_source r.source x

-- `_get_source_row`, and what `list_source_rows` holds of a source.
abbrev pub source_row : String → Source → List SourceRow → Option SourceRow
source_row s x [] = none
source_row s x (r ∷ rs) = if is_row s x r then some r else source_row s x rs

-- The row of this key changed, or made and then changed where there is none.
abbrev pub upsert :
    String → Source → (SourceRow → SourceRow) → SourceRow → List SourceRow → List SourceRow
upsert s x f new [] = f new ∷ []
upsert s x f new (r ∷ rs) =
    let rest = upsert s x f new rs in if is_row s x r then f r ∷ rs else r ∷ rest

abbrev pub blank_row : String → Source → Bool → ℕ → SourceRow
blank_row s x enabled now = record {
  subject_id = s;
  source = x;
  label = none;
  until = none;
  enabled = enabled;
  updated_at = now;
}

abbrev pub with_value : Option PresenceLabel → Option ℕ → ℕ → SourceRow → SourceRow
with_value label until now r = record r { label = label; until = until; updated_at = now }

abbrev pub put_value : String → Source → Option PresenceLabel → Option ℕ → ℕ → Database → Database
put_value s x label until now d = record d {
  sources = upsert s x (with_value label until now) (blank_row s x true now) d.sources;
}

-- `none` where `InvalidSourceError` is raised.
abbrev pub put_if_stored :
    String → Option Source → Option PresenceLabel → Option ℕ → ℕ → Database → Option Database
put_if_stored s none label until now d = none
put_if_stored s (some x) label until now d =
    if is_stored x then some (put_value s x label until now d) else none

unfoldable pub set_source_value :
    String → String → Option PresenceLabel → Option ℕ → ℕ → Database → Option Database
set_source_value s source label until now d = put_if_stored s (source_of source) label until now d

unfoldable pub clear_source_value : String → String → ℕ → Database → Option Database
clear_source_value s source now d = set_source_value s source none none now d

abbrev pub with_enabled : Bool → ℕ → SourceRow → SourceRow
with_enabled b now r = record r { enabled = b; updated_at = now }

abbrev pub put_enabled : String → Source → Bool → ℕ → Database → Database
put_enabled s x b now d = record d {
  sources = upsert s x (with_enabled b now) (blank_row s x b now) d.sources;
}

abbrev pub put_if_source : String → Option Source → Bool → ℕ → Database → Option Database
put_if_source s none b now d = none
put_if_source s (some x) b now d = some (put_enabled s x b now d)

unfoldable pub set_source_enabled : String → String → Bool → ℕ → Database → Option Database
set_source_enabled s source b now d = put_if_source s (source_of source) b now d

-- The row is enabled again, and its time is that of the write.
abbrev pub enable : SourceRow → SourceRow
enable r = record r { enabled = true }

unfoldable pub set_manual_override : String → PresenceLabel → Option ℕ → ℕ → Database → Database
set_manual_override s label until now d = record d {
  sources =
      upsert s manual (λ r. enable (with_value (some label) until now r))
        (blank_row s manual true now) d.sources;
}

unfoldable pub clear_manual_override : String → ℕ → Database → Database
clear_manual_override s now d = put_value s manual none none now d
