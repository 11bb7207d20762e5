-- ===== src/Visiond/Tests.antt =====
-- The theorems of the purge outbox and of the recognition at concrete inputs
-- (apps/door-visiond/src/door_visiond/purge_outbox.py and pipeline.py).
use doorboard.Prelude.{
  ℕ, ◌≡◌, refl, ◌==◌, String, Bool, true, Option, none, some, List, [], ◌∷◌, if◌then◌else◌,
}
use doorboard.Visiond.Pipeline.{
  MatchResult, FrameCapture, Config, Draws, on_matcher_refreshed, process_capture,
  maybe_emit_stable, tick,
}
use doorboard.Visiond.Cache.{expire_if_due, current}
use doorboard.Visiond.Pipeline.Cooldown as Cooldown
use doorboard.Visiond.Pipeline.Cooldown.{
  captured, refreshed, ticked, new_core, greetings, IsApart, process_capture-IsApart,
}
use doorboard.Visiond.Pipeline.Unknown.{IsForgotten, process_capture-IsForgotten}
use doorboard.Visiond.PurgeOutbox.{has_person, enqueue}
use doorboard.Visiond.PurgeOutbox.Laws.{
  Op, enqueued, delivered, failed, apply_all, enqueue-never_lost,
}

abbrev operations : List Op
operations = failed 20 "ann" 1 60 "down" ∷ enqueued 30 "bob" ∷ delivered "bob" ∷ []

enqueue-never_lost_example : has_person "ann" (apply_all operations (enqueue 10 "ann" []).0) ≡ true
enqueue-never_lost_example = enqueue-never_lost 10 "ann" operations [] refl

-- Two frames of a window make a person stable.
abbrev config : Config
config = record {
  min_face_px = 80;
  ttl_ms = 2500;
  cooldown_ms = 30000;
  stability_window = 3;
  stability_required = 2;
  cache_update_sink = true;
  cache_clear_sink = true;
}

-- Ann has the embedding 7.
abbrev known : ℕ → Option MatchResult
known e =
    if e == 7
    then some (record { person_id = "ann"; display_name = "Ann"; profile_id = "calm"; score = 9 })
    else none

abbrev at : ℕ → Draws
at t = record {
  now = t;
  utc_now = t;
  face_trace = 1;
  streak_id = 2;
  update_trace = 3;
  stable_trace = 4;
  expired_trace = 5;
}

-- Somebody is in front of Ann, too far away to count.
abbrev frame : FrameCapture
frame = record {
  faces = record { size_px = 40; embedding = 8 } ∷ record { size_px = 120; embedding = 7 } ∷ [];
  dropped = 0;
}

abbrev stranger : FrameCapture
stranger = record {
  faces = record { size_px = 40; embedding = 7 } ∷ record { size_px = 120; embedding = 8 } ∷ [];
  dropped = 1;
}

abbrev everybody : String → Bool
everybody p = true

abbrev day : List Cooldown.Op
day =
    captured (at 0) frame
    ∷ captured (at 100) frame
    ∷ captured (at 200) frame
    ∷ ticked (at 5000)
    ∷ refreshed everybody
    ∷ captured (at 30100) frame
    ∷ []

process_capture-IsApart_example :
    IsApart 30000 (greetings "ann" (Cooldown.apply_all config known day new_core).sent)
process_capture-IsApart_example =
    process_capture-IsApart config "ann" known day (tt, (tt, (tt, (tt, (refl, (tt, tt))))))

twice : greetings "ann" (Cooldown.apply_all config known day new_core).sent ≡ 32600 ∷ 2600 ∷ []
unfolding Cooldown.apply_all Cooldown.apply process_capture maybe_emit_stable tick expire_if_due
    on_matcher_refreshed current
twice = refl

process_capture-IsForgotten_example :
    IsForgotten config
      (at 300)
      stranger.faces
      new_core
      (process_capture config known (at 300) stranger new_core)
process_capture-IsForgotten_example =
    process_capture-IsForgotten known config (at 300) stranger new_core (refl, tt)
