-- ===== src/Visiond/Pipeline/Unknown.antt =====
-- What a frame with unknown faces leaves behind
-- (apps/door-visiond/src/door_visiond/pipeline.py).
use doorboard.Prelude.{
  ℕ, ◌≡◌, refl, sym, subst, String, Bool, true, false, inl, inr, Bool-cases, Option, none, some,
  is_some, List, [], ◌∷◌, length, take, ltb, if◌then◌else◌, All,
}
use doorboard.Visiond.Pipeline.{
  MatchResult, DetectedFace, FrameCapture, Sent, face_visible, Config, PipelineCore, Draws,
  qualifying, larger, primary, largest_px, match_face, show_faces, tally, process_result,
  process_capture, maybe_emit_stable,
}

-- The one event of a frame with faces.
abbrev pub with_faces : Draws → List DetectedFace → List Sent → List Sent
with_faces d [] sent = sent
with_faces d (f ∷ fs) sent =
    face_visible d.face_trace (length (f ∷ fs)) (largest_px (f ∷ fs)) ∷ sent

-- A frame that leaves no person behind.
pub record IsForgotten (c : Config) (d : Draws) (faces : List DetectedFace) (s t : PipelineCore)
    : Type 0 where
  pub same_cache : t.cache ≡ s.cache
  pub same_greeted : t.last_stable_ms ≡ s.last_stable_ms
  pub nobody : t.ring ≡ take c.stability_window (none ∷ s.ring)
  pub no_new_streak :
      (p : String) → is_some (s.first_seen_ms p) ≡ false → is_some (t.first_seen_ms p) ≡ false
  pub no_new_trace :
      (p : String) → is_some (s.streak_trace p) ≡ false → is_some (t.streak_trace p) ≡ false
  pub only_faces : t.sent ≡ with_faces d faces s.sent

module _ (known : ℕ → Option MatchResult) where
  abbrev pub IsUnknown : DetectedFace → Type 0
  IsUnknown f = known f.embedding ≡ none

  larger-unknown :
      (f : DetectedFace) (o : Option DetectedFace)
      → IsUnknown f
      → match_face known o ≡ none
      → match_face known (some (larger f o)) ≡ none
  larger-unknown f none h k = h
  larger-unknown f (some g) h k = elim (Bool-cases (ltb f.size_px g.size_px)) [
    | inl e ↦ rw e k
    | inr e ↦ rw e h
  ]

  primary-unknown :
      (fs : List DetectedFace) → All IsUnknown fs → match_face known (primary fs) ≡ none
  primary-unknown [] h = refl
  primary-unknown (f ∷ fs) h = larger-unknown f (primary fs) h.0 (primary-unknown fs h.1)

  restrict-none :
      (valid : Bool) (o : Option ℕ)
      → is_some o ≡ false
      → is_some (if valid then o else none) ≡ false
  restrict-none true o h = h
  restrict-none false o h = refl

  dropped-none :
      (valid : Bool) (o : Option ℕ)
      → is_some o ≡ false
      → is_some (if valid then none else o) ≡ false
  dropped-none true o h = refl
  dropped-none false o h = h

  result-IsForgotten :
      (c : Config) (d : Draws) (n : ℕ) (faces : List DetectedFace) (s : PipelineCore)
      → IsForgotten c d faces s (process_result c d none (show_faces d faces (tally n s)))
  unfolding maybe_emit_stable
  result-IsForgotten c d n [] s = record {
    same_cache = refl;
    same_greeted = refl;
    nobody = refl;
    no_new_streak = λ p h. restrict-none _ (s.first_seen_ms p) h;
    no_new_trace = λ p h. dropped-none _ (s.streak_trace p) h;
    only_faces = refl;
  }
  result-IsForgotten c d n (f ∷ fs) s = record {
    same_cache = refl;
    same_greeted = refl;
    nobody = refl;
    no_new_streak = λ p h. restrict-none _ (s.first_seen_ms p) h;
    no_new_trace = λ p h. dropped-none _ (s.streak_trace p) h;
    only_faces = refl;
  }

  -- A frame in which the matcher knows no face that is large enough leaves no person behind: the cache
  -- and the times of greeting are as they were, the ring has an entry for nobody, no person gets a
  -- streak or a trace, and nothing is sent but, if there are faces, their number and largest size.
  pub process_capture-IsForgotten :
      (c : Config) (d : Draws) (capture : FrameCapture) (s : PipelineCore)
      → All IsUnknown (qualifying c.min_face_px capture.faces)
      → IsForgotten c d capture.faces s (process_capture c known d capture s)
  unfolding process_capture
  process_capture-IsForgotten c d capture s h =
      subst
        (λ o.
          IsForgotten c d capture.faces s
            (process_result c d o (show_faces d capture.faces (tally capture.dropped s))))
        (sym (primary-unknown (qualifying c.min_face_px capture.faces) h))
        (result-IsForgotten c d capture.dropped capture.faces s)
