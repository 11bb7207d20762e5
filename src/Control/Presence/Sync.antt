-- ===== src/Control/Presence/Sync.antt =====
-- The resolution over the tables, the history, and `sync_presence`
-- (apps/control-plane-api/src/control_plane_api/presence_engine.py, and what ingest.py and
-- projections.py do with the event of a change).
use doorboard.Prelude.{
  ℕ, String, Bool, true, false, ◌&&◌, ◌||◌, not, Option, none, some, List, [], ◌∷◌, ◌++◌, map, take,
  ltb, ◌==◌, str_eq, if◌then◌else◌,
}
use doorboard.Control.Presence.{
  PresenceLabel, label_code, Source, calendar, same_source, source_precedence, is_inferred,
  SourceEntry, ResolvedPresence, resolve_presence, SubjectRow, SourceRow, HistoryRow, Database,
  subject_row, source_row, get_or_create_subject,
}

-- `CalendarProvider.get_label`
abbrev pub Calendar : Type 0
Calendar = String → ℕ → Option SourceEntry

abbrev pub tracked : Option SubjectRow → Bool
tracked none = true
tracked (some r) = r.tracking_enabled

abbrev pub tracking_enabled : String → Database → Bool
tracking_enabled s d = tracked (subject_row s d.subjects)

abbrev pub row_enabled : Option SourceRow → Bool
row_enabled none = true
row_enabled (some r) = r.enabled

abbrev pub labelled : Option PresenceLabel → Option ℕ → Option SourceEntry
labelled none until = none
labelled (some l) until = some (record { label = l; until = until })

-- `row is None or not row.enabled or row.label is None`
abbrev pub stored_entry : Option SourceRow → Option SourceEntry
stored_entry none = none
stored_entry (some r) = if r.enabled then labelled r.label r.until else none

abbrev pub entry_of : Calendar → String → ℕ → Database → Bool → Source → Option SourceEntry
entry_of cal s now d tracking calendar =
    if tracking && row_enabled (source_row s calendar d.sources) then cal s now else none
entry_of cal s now d tracking x =
    if is_inferred x && not tracking then none else stored_entry (source_row s x d.sources)

unfoldable pub build_entries : Calendar → String → ℕ → Database → Source → Option SourceEntry
build_entries cal s now d x = entry_of cal s now d (tracking_enabled s d) x

unfoldable pub resolve_current : Calendar → String → ℕ → Database → ResolvedPresence
resolve_current cal s now d = resolve_presence (build_entries cal s now d) now

abbrev pub of_subject : String → List HistoryRow → List HistoryRow
of_subject s [] = []
of_subject s (r ∷ rs) =
    let rest = of_subject s rs in if str_eq r.subject_id s then r ∷ rest else rest

-- `ORDER BY occurred_at DESC, recorded_at DESC`
abbrev pub newer : HistoryRow → HistoryRow → Bool
newer r q =
    ltb q.occurred_at r.occurred_at
    || ((q.occurred_at == r.occurred_at) && ltb q.recorded_at r.recorded_at)

abbrev pub insert : HistoryRow → List HistoryRow → List HistoryRow
insert r [] = r ∷ []
insert r (q ∷ qs) = let rest = insert r qs in if newer r q then r ∷ q ∷ qs else q ∷ rest

abbrev pub by_newest : List HistoryRow → List HistoryRow
by_newest [] = []
by_newest (r ∷ rs) = insert r (by_newest rs)

abbrev pub head_of : List HistoryRow → Option HistoryRow
head_of [] = none
head_of (r ∷ rs) = some r

unfoldable pub latest_history_row : String → Database → Option HistoryRow
latest_history_row s d = head_of (by_newest (of_subject s d.history))

unfoldable pub list_history : String → ℕ → Database → List HistoryRow
list_history s limit d = take limit (by_newest (of_subject s d.history))

abbrev pub has_id : ℕ → List ℕ → Bool
has_id i [] = false
has_id i (j ∷ js) = (j == i) || has_id i js

abbrev pub ids : List HistoryRow → List ℕ
ids [] = []
ids (r ∷ rs) = r.event_id ∷ ids rs

-- The rows of other subjects, and those whose event is to be kept.
abbrev pub kept : String → List ℕ → List HistoryRow → List HistoryRow
kept s keep [] = []
kept s keep (r ∷ rs) =
    let rest = kept s keep rs in
    if not (str_eq r.subject_id s) || has_id r.event_id keep then r ∷ rest else rest

-- `if not keep_ids: return`
abbrev pub delete_others : String → List ℕ → List HistoryRow → List HistoryRow
delete_others s [] rows = rows
delete_others s (i ∷ is) rows = kept s (i ∷ is) rows

abbrev pub keep_ids : String → ℕ → List HistoryRow → List ℕ
keep_ids s keep rows = ids (take keep (by_newest (of_subject s rows)))

unfoldable pub trim_history : String → ℕ → Database → Database
trim_history s keep d = record d { history = delete_others s (keep_ids s keep d.history) d.history }

-- The event of a change, as the row that its projection makes of it.
abbrev pub presence_event : ℕ → String → ResolvedPresence → ℕ → HistoryRow
presence_event id s r now = record {
  event_id = id;
  subject_id = s;
  label = r.label;
  source = r.source;
  until = r.until;
  occurred_at = now;
  recorded_at = now;
}

-- `ingest_one`: an event whose identifier is known is a duplicate, `none` here.
unfoldable pub ingest : HistoryRow → Database → Option Database
ingest e d =
    if has_id e.event_id d.event_ids
    then none
    else some (record d { event_ids = e.event_id ∷ d.event_ids; history = d.history ++ e ∷ [] })

abbrev pub same_until : Option ℕ → Option ℕ → Bool
same_until none none = true
same_until none (some t) = false
same_until (some t) none = false
same_until (some t) (some u) = t == u

abbrev pub same_as : Option HistoryRow → ResolvedPresence → Bool
same_as none r = false
same_as (some q) r =
    (label_code q.label == label_code r.label)
    && same_source q.source r.source
    && same_until q.until r.until

-- `publish_event`, whose failure is logged and no more.
abbrev pub publish : Bool → HistoryRow → Database → Database
publish true e d = record d { published = d.published ++ e ∷ [] }
publish false e d = d

abbrev pub emitted : String → ℕ → Bool → HistoryRow → Database → Option Database → Database
emitted s keep reachable e d none = d
emitted s keep reachable e d (some n) = publish reachable e (trim_history s keep n)

abbrev pub emit : String → ℕ → Bool → HistoryRow → Database → Database
emit s keep reachable e d = emitted s keep reachable e d (ingest e d)

abbrev pub sync_from : Calendar → String → ℕ → ℕ → ℕ → Bool → Database → Database × ResolvedPresence
sync_from cal s now id keep reachable d = (
  if same_as (latest_history_row s d) (resolve_current cal s now d)
      then d
      else emit s keep reachable (presence_event id s (resolve_current cal s now d) now) d,
  resolve_current cal s now d,
)

-- `id` is the identifier that the event draws, and `reachable` whether MQTT takes it.
unfoldable pub sync_presence :
    Calendar → String → ℕ → ℕ → ℕ → Bool → Database → Database × ResolvedPresence
sync_presence cal s now id keep reachable d =
    sync_from cal s now id keep reachable (get_or_create_subject s now d)

pub record SourceStatus : Type 0 where
  pub source : Source
  pub label : Option PresenceLabel
  pub until : Option ℕ
  pub enabled : Bool
  pub stored : Bool

abbrev pub entry_label : Option SourceEntry → Option PresenceLabel
entry_label none = none
entry_label (some e) = some e.label

abbrev pub entry_until : Option SourceEntry → Option ℕ
entry_until none = none
entry_until (some e) = e.until

abbrev pub row_label : Option SourceRow → Option PresenceLabel
row_label none = none
row_label (some r) = r.label

abbrev pub row_until : Option SourceRow → Option ℕ
row_until none = none
row_until (some r) = r.until

abbrev pub source_status : Calendar → String → ℕ → Database → Source → SourceStatus
source_status cal s now d calendar = record {
  source = calendar;
  label = entry_label (cal s now);
  until = entry_until (cal s now);
  enabled = row_enabled (source_row s calendar d.sources);
  stored = false;
}
source_status cal s now d x = record {
  source = x;
  label = row_label (source_row s x d.sources);
  until = row_until (source_row s x d.sources);
  enabled = row_enabled (source_row s x d.sources);
  stored = true;
}

pub record SubjectStatus : Type 0 where
  pub subject_id : String
  pub tracking_enabled : Bool
  pub resolved : ResolvedPresence
  pub sources : List SourceStatus

abbrev pub subject_status :
    Calendar → String → ℕ → Database × ResolvedPresence → Database × SubjectStatus
subject_status cal s now (d, r) = (
  get_or_create_subject s now d,
  record {
    subject_id = s;
    tracking_enabled = tracking_enabled s (get_or_create_subject s now d);
    resolved = r;
    sources = map (source_status cal s now d) source_precedence;
  },
)

unfoldable pub get_subject_status :
    Calendar → String → ℕ → ℕ → ℕ → Bool → Database → Database × SubjectStatus
get_subject_status cal s now id keep reachable d =
    subject_status cal s now (sync_presence cal s now id keep reachable d)
