-- ===== src/Visiond/Pipeline.antt =====
-- The recognition logic (`PipelineCore` of apps/door-visiond/src/door_visiond/pipeline.py). An
-- embedding is only handed to the matcher, so a number stands for it. A dictionary is a function. The
-- samples that only statistics read have no model. `sent` has what the sinks were given, latest first.
pub mod Cooldown
pub mod Unknown
use doorboard.Prelude.{
  ℕ, ◌+◌, max, String, Bool, true, false, ◌&&◌, not, Option, none, some, is_some, List, [], ◌∷◌,
  map, length, take, ltb, leb, str_eq, get_or, if◌then◌else◌,
}
use doorboard.Visiond.Cache.{CurrentVisitor, IdentityCache, current, expire_if_due, clear}

pub record MatchResult : Type 0 where
  pub person_id : String
  pub display_name : String
  pub profile_id : String
  pub score : ℕ

pub record DetectedFace : Type 0 where
  pub size_px : ℕ
  pub embedding : ℕ

pub record FrameCapture : Type 0 where
  pub faces : List DetectedFace
  pub dropped : ℕ

pub data Priority : Type 0 where
  high normal : Priority

-- What the sinks are given: of events, of updates of the cache, and of its clearing.
pub data Sent : Type 0 where
  face_visible : (trace face_count largest_face_px : ℕ) → Sent
  identity_stable : (trace score : ℕ) → CurrentVisitor → Sent
  identity_expired : (trace : ℕ) (person_id : String) → Sent
  cache_update : CurrentVisitor → Priority → (trace : ℕ) → Sent
  cache_clear : CurrentVisitor → (reason : String) → (trace : ℕ) → Sent

abbrev pub Book : Type 0
Book = String → Option ℕ

pub record Config : Type 0 where
  pub min_face_px : ℕ
  pub ttl_ms : ℕ
  pub cooldown_ms : ℕ
  pub stability_window : ℕ
  pub stability_required : ℕ
  pub cache_update_sink : Bool
  pub cache_clear_sink : Bool

-- The ring has the latest frame first.
pub record PipelineCore : Type 0 where
  pub ring : List (Option String)
  pub last_stable_ms : Book
  pub first_seen_ms : Book
  pub streak_trace : Book
  pub cache : IdentityCache
  pub frame_count : ℕ
  pub face_visible_count : ℕ
  pub identity_stable_count : ℕ
  pub identity_expired_count : ℕ
  pub frame_drops : ℕ
  pub sent : List Sent

-- The times that a call reads and the ids that it draws.
pub record Draws : Type 0 where
  pub now : ℕ
  pub utc_now : ℕ
  pub face_trace : ℕ
  pub streak_id : ℕ
  pub update_trace : ℕ
  pub stable_trace : ℕ
  pub expired_trace : ℕ

abbrev pub put : String → Option ℕ → Book → Book
put p v b q = if str_eq p q then v else b q

abbrev pub push : Sent → PipelineCore → PipelineCore
push e s = record s { sent = e ∷ s.sent }

-- `on_matcher_refreshed`
abbrev pub restrict : (String → Bool) → Book → Book
restrict valid b p = if valid p then b p else none

unfoldable pub on_matcher_refreshed : (String → Bool) → PipelineCore → PipelineCore
on_matcher_refreshed valid s = record s {
  last_stable_ms = restrict valid s.last_stable_ms;
  first_seen_ms = restrict valid s.first_seen_ms;
  streak_trace = restrict valid s.streak_trace;
}

abbrev pub qualifying : ℕ → List DetectedFace → List DetectedFace
qualifying px [] = []
qualifying px (f ∷ fs) = let rest = qualifying px fs in if leb px f.size_px then f ∷ rest else rest

-- `max` with a key: the first of the largest.
abbrev pub larger : DetectedFace → Option DetectedFace → DetectedFace
larger f none = f
larger f (some g) = if ltb f.size_px g.size_px then g else f

abbrev pub primary : List DetectedFace → Option DetectedFace
primary [] = none
primary (f ∷ fs) = some (larger f (primary fs))

abbrev pub largest_px : List DetectedFace → ℕ
largest_px [] = 0
largest_px (f ∷ fs) = max f.size_px (largest_px fs)

abbrev pub match_face : (ℕ → Option MatchResult) → Option DetectedFace → Option MatchResult
match_face known none = none
match_face known (some f) = known f.embedding

abbrev pub person_of : Option MatchResult → Option String
person_of none = none
person_of (some r) = some r.person_id

abbrev pub is_person : String → Option String → Bool
is_person p none = false
is_person p (some q) = str_eq p q

-- `self._ring.count(person_id)`
abbrev pub count : String → List (Option String) → ℕ
count p [] = 0
count p (o ∷ os) = let rest = count p os in if is_person p o then rest + 1 else rest

-- The first appearance in a streak.
abbrev pub note_seen : Draws → Option MatchResult → PipelineCore → PipelineCore
note_seen d none s = s
note_seen d (some r) s = if is_some (s.first_seen_ms r.person_id) then s else record s {
  first_seen_ms = put r.person_id (some d.now) s.first_seen_ms;
  streak_trace = put r.person_id (some d.streak_id) s.streak_trace;
}

-- `_prune_departed`
abbrev pub is_present : List (Option String) → String → Bool
is_present ring p = ltb 0 (count p ring)

abbrev pub prune_departed : PipelineCore → PipelineCore
prune_departed s = record s {
  first_seen_ms = restrict (is_present s.ring) s.first_seen_ms;
  streak_trace = λ p.
      if is_some (s.first_seen_ms p) && not (is_present s.ring p) then none else s.streak_trace p;
}

-- The last `stability_window` frames.
abbrev pub remember : ℕ → Option String → PipelineCore → PipelineCore
remember window o s = record s { ring = take window (o ∷ s.ring) }

abbrev pub visitor_of : Config → Draws → MatchResult → CurrentVisitor
visitor_of c d r = record {
  person_id = r.person_id;
  display_name = r.display_name;
  profile_id = r.profile_id;
  expires_at_monotonic_ms = d.now + c.ttl_ms;
  expires_at_utc = d.utc_now + c.ttl_ms;
}

abbrev pub priority_of : MatchResult → Option CurrentVisitor → Priority
priority_of r none = high
priority_of r (some v) =
    if str_eq v.person_id r.person_id && str_eq v.profile_id r.profile_id then normal else high

-- The cache is refreshed, whatever the cooldown.
abbrev pub refresh : Config → Draws → MatchResult → PipelineCore → PipelineCore
refresh c d r s =
    let s' = record s { cache = some (visitor_of c d r) } in
    if c.cache_update_sink
    then push
        (cache_update (visitor_of c d r) (priority_of r (current d.now s.cache))
          (get_or (s.streak_trace r.person_id) d.update_trace))
        s'
    else s'

-- The greeting cooldown.
abbrev pub is_cooling : Config → ℕ → Option ℕ → Bool
is_cooling c now none = false
is_cooling c now (some last) = ltb now (last + c.cooldown_ms)

abbrev pub emit_stable : Config → Draws → MatchResult → PipelineCore → PipelineCore
emit_stable c d r s = record s {
  sent =
      identity_stable (get_or (s.streak_trace r.person_id) d.stable_trace) r.score
        (visitor_of c d r)
      ∷ s.sent;
  last_stable_ms = put r.person_id (some d.now) s.last_stable_ms;
  identity_stable_count = s.identity_stable_count + 1;
}

-- `_maybe_emit_stable`
abbrev pub greet : Config → Draws → MatchResult → PipelineCore → PipelineCore
greet c d r s = if is_cooling c d.now (s.last_stable_ms r.person_id) then s else emit_stable c d r s

unfoldable pub maybe_emit_stable : Config → Draws → Option MatchResult → PipelineCore → PipelineCore
maybe_emit_stable c d none s = s
maybe_emit_stable c d (some r) s =
    if ltb (count r.person_id s.ring) c.stability_required then s else greet c d r (refresh c d r s)

abbrev pub show_faces : Draws → List DetectedFace → PipelineCore → PipelineCore
show_faces d [] s = s
show_faces d (f ∷ fs) s = record s {
  face_visible_count = s.face_visible_count + 1;
  sent = face_visible d.face_trace (length (f ∷ fs)) (largest_px (f ∷ fs)) ∷ s.sent;
}

abbrev pub tally : ℕ → PipelineCore → PipelineCore
tally dropped s = record s {
  frame_count = s.frame_count + 1;
  frame_drops = s.frame_drops + dropped;
}

-- `_match_primary_face`
abbrev pub match_primary_face :
    Config → (ℕ → Option MatchResult) → List DetectedFace → Option MatchResult
match_primary_face c known faces = match_face known (primary (qualifying c.min_face_px faces))

abbrev pub process_result : Config → Draws → Option MatchResult → PipelineCore → PipelineCore
process_result c d o s =
    maybe_emit_stable c d o
      (prune_departed (remember c.stability_window (person_of o) (note_seen d o s)))

unfoldable pub process_capture :
    Config → (ℕ → Option MatchResult) → Draws → FrameCapture → PipelineCore → PipelineCore
process_capture c known d capture s =
    process_result c d (match_primary_face c known capture.faces)
      (show_faces d capture.faces (tally capture.dropped s))

-- `_emit_expired`
abbrev pub emit_expired : Config → Draws → CurrentVisitor → String → PipelineCore → PipelineCore
emit_expired c d v reason s =
    let trace = get_or (s.streak_trace v.person_id) d.expired_trace in
    let events = identity_expired trace v.person_id ∷ s.sent in
    record s {
      streak_trace = put v.person_id none s.streak_trace;
      first_seen_ms = put v.person_id none s.first_seen_ms;
      sent = if c.cache_clear_sink then cache_clear v reason trace ∷ events else events;
      identity_expired_count = s.identity_expired_count + 1;
    }

abbrev pub expire :
    Config → Draws → String → IdentityCache × Option CurrentVisitor → PipelineCore → PipelineCore
expire c d reason (kept, none) s = record s { cache = kept }
expire c d reason (kept, some v) s = emit_expired c d v reason (record s { cache = kept })

unfoldable pub tick : Config → Draws → PipelineCore → PipelineCore
tick c d s = expire c d "expired" (expire_if_due d.now s.cache) s

unfoldable pub clear_cache_and_notify : Config → Draws → String → PipelineCore → PipelineCore
clear_cache_and_notify c d reason s = expire c d reason (clear s.cache) s
