-- ===== src/Visiond/Pipeline/Cooldown.antt =====
-- How often a visitor is greeted (apps/door-visiond/src/door_visiond/pipeline.py).
use doorboard.Prelude.{
  ℕ, ◌+◌, ◌≤◌, ◌≡◌, refl, sym, subst, String, Bool, true, false, inl, inr, Bool-cases, Option, none,
  some, is_some, List, [], ◌∷◌, arith, ltb, str_eq, eq_iff, if◌then◌else◌, All,
}
use doorboard.Visiond.Cache.{CurrentVisitor, IdentityCache, expire_if_due}
use doorboard.Visiond.Pipeline.{
  MatchResult, DetectedFace, FrameCapture, Sent, identity_stable, Config, PipelineCore, Draws,
  on_matcher_refreshed, note_seen, count, refresh, is_cooling, emit_stable, greet,
  maybe_emit_stable, show_faces, match_primary_face, process_capture, expire, tick,
  clear_cache_and_notify, prune_departed, remember, person_of, tally,
}

pub data Op : Type 0 where
  captured : Draws → FrameCapture → Op
  refreshed : (valid : String → Bool) → Op
  ticked : Draws → Op
  cleared : Draws → (reason : String) → Op

abbrev pub new_core : PipelineCore
new_core = record {
  ring = [];
  last_stable_ms = λ p. none;
  first_seen_ms = λ p. none;
  streak_trace = λ p. none;
  cache = none;
  frame_count = 0;
  face_visible_count = 0;
  identity_stable_count = 0;
  identity_expired_count = 0;
  frame_drops = 0;
  sent = [];
}

module _ (c : Config) (known : ℕ → Option MatchResult) where
  unfoldable pub apply : Op → PipelineCore → PipelineCore
  apply (captured d capture) s = process_capture c known d capture s
  apply (refreshed valid) s = on_matcher_refreshed valid s
  apply (ticked d) s = tick c d s
  apply (cleared d reason) s = clear_cache_and_notify c d reason s

  unfoldable pub apply_all : List Op → PipelineCore → PipelineCore
  apply_all [] s = s
  apply_all (o ∷ os) s = apply_all os (apply o s)

-- The person is enrolled whenever the matcher is refreshed.
abbrev pub StaysEnrolled : String → Op → Type 0
StaysEnrolled p (refreshed valid) = valid p ≡ true
StaysEnrolled p _ = Unit

-- The times until which the greetings of a person hold, latest first.
abbrev pub greeting : String → Sent → List ℕ → List ℕ
greeting p (identity_stable t score v) rest =
    if str_eq v.person_id p then v.expires_at_monotonic_ms ∷ rest else rest
greeting p _ rest = rest

abbrev pub greetings : String → List Sent → List ℕ
greetings p [] = []
greetings p (e ∷ es) = greeting p e (greetings p es)

abbrev pub IsAfter : ℕ → ℕ → List ℕ → Type 0
IsAfter gap t [] = Unit
IsAfter gap t (u ∷ us) = u + gap ≤ t

abbrev pub IsApart : ℕ → List ℕ → Type 0
IsApart gap [] = Unit
IsApart gap (t ∷ ts) = IsAfter gap t ts × IsApart gap ts

IsLatest : ℕ → Option ℕ → List ℕ → Type 0
IsLatest ttl none ts = ts ≡ []
IsLatest ttl (some t) ts = (us : List ℕ) × (ts ≡ (t + ttl) ∷ us)

module _ (c : Config) (p : String) where
  -- The book has the last greeting, and the greetings are apart.
  IsKept : PipelineCore → Type 0
  IsKept s =
      IsLatest c.ttl_ms (s.last_stable_ms p) (greetings p s.sent)
      × IsApart c.cooldown_ms (greetings p s.sent)

  show_faces-IsKept :
      (d : Draws) (fs : List DetectedFace) (s : PipelineCore)
      → IsKept s
      → IsKept (show_faces d fs s)
  unfolding IsKept
  show_faces-IsKept d [] s k = k
  show_faces-IsKept d (f ∷ fs) s k = k

  note_seen-IsKept :
      (d : Draws) (o : Option MatchResult) (s : PipelineCore) → IsKept s → IsKept (note_seen d o s)
  unfolding IsKept
  note_seen-IsKept d none s k = k
  note_seen-IsKept d (some r) s k = elim (Bool-cases (is_some (s.first_seen_ms r.person_id))) [
    | inl e ↦ rw e k
    | inr e ↦ rw e k
  ]

  refresh-IsKept :
      (d : Draws) (r : MatchResult) (s : PipelineCore) → IsKept s → IsKept (refresh c d r s)
  unfolding IsKept
  refresh-IsKept d r s k = elim (Bool-cases c.cache_update_sink) [ inl e ↦ rw e k | inr e ↦ rw e k ]

  -- A greeting that the cooldown lets through.
  next-IsAfter :
      (now : ℕ) (o : Option ℕ) (ts : List ℕ)
      → is_cooling c now o ≡ false
      → IsLatest c.ttl_ms o ts
      → IsAfter c.cooldown_ms (now + c.ttl_ms) ts
  unfolding IsLatest
  next-IsAfter now none ts h l = subst (IsAfter c.cooldown_ms (now + c.ttl_ms)) (sym l) tt
  next-IsAfter now (some t) ts h (us, l) =
      let due : t + c.cooldown_ms ≤ now = ground arith in
      subst (IsAfter c.cooldown_ms (now + c.ttl_ms)) (sym l) (omega (arith, due))

  emit_stable-IsKept :
      (d : Draws) (r : MatchResult) (s : PipelineCore)
      → is_cooling c d.now (s.last_stable_ms r.person_id) ≡ false
      → IsKept s
      → IsKept (emit_stable c d r s)
  unfolding IsKept IsLatest
  emit_stable-IsKept d r s h k = elim (Bool-cases (str_eq r.person_id p)) [
    | inl e ↦ rw e (
      (greetings p s.sent, refl),
      (
        next-IsAfter d.now (s.last_stable_ms p) (greetings p s.sent)
            (subst (λ q. is_cooling c d.now (s.last_stable_ms q) ≡ false)
              ((eq_iff r.person_id p).0 e) h)
            k.0,
        k.1,
      ),
    )
    | inr e ↦ rw e k
  ]

  greet-IsKept :
      (d : Draws) (r : MatchResult) (s : PipelineCore) → IsKept s → IsKept (greet c d r s)
  greet-IsKept d r s k = elim (Bool-cases (is_cooling c d.now (s.last_stable_ms r.person_id))) [
    | inl e ↦ rw e k
    | inr e ↦ rw e (emit_stable-IsKept d r s e k)
  ]

  maybe-IsKept :
      (d : Draws) (o : Option MatchResult) (s : PipelineCore)
      → IsKept s
      → IsKept (maybe_emit_stable c d o s)
  unfolding maybe_emit_stable
  maybe-IsKept d none s k = k
  maybe-IsKept d (some r) s k =
      elim (Bool-cases (ltb (count r.person_id s.ring) c.stability_required)) [
        | inl e ↦ rw e k
        | inr e ↦ rw e (greet-IsKept d r (refresh c d r s) (refresh-IsKept d r s k))
      ]

  forget-IsKept :
      (window : ℕ) (o : Option String) (s : PipelineCore)
      → IsKept s
      → IsKept (prune_departed (remember window o s))
  unfolding IsKept
  forget-IsKept window o s k = k

  expire-IsKept :
      (d : Draws) (reason : String) (x : IdentityCache × Option CurrentVisitor) (s : PipelineCore)
      → IsKept s
      → IsKept (expire c d reason x s)
  unfolding IsKept
  expire-IsKept d reason (kept, none) s k = k
  expire-IsKept d reason (kept, some v) s k = elim (Bool-cases c.cache_clear_sink) [
    | inl e ↦ rw e k
    | inr e ↦ rw e k
  ]

  refreshed-IsKept :
      (valid : String → Bool) (s : PipelineCore)
      → valid p ≡ true
      → IsKept s
      → IsKept (on_matcher_refreshed valid s)
  unfolding IsKept on_matcher_refreshed
  refreshed-IsKept valid s h k = rw h k

  tally-IsKept : (n : ℕ) (s : PipelineCore) → IsKept s → IsKept (tally n s)
  unfolding IsKept
  tally-IsKept n s k = k

  apply-IsKept :
      (known : ℕ → Option MatchResult) (o : Op) (s : PipelineCore)
      → StaysEnrolled p o
      → IsKept s
      → IsKept (apply c known o s)
  unfolding apply process_capture tick clear_cache_and_notify
  apply-IsKept known (captured d capture) s h k =
      let o = match_primary_face c known capture.faces in
      let shown = show_faces d capture.faces (tally capture.dropped s) in
      maybe-IsKept d o
        (prune_departed (remember c.stability_window (person_of o) (note_seen d o shown)))
        (forget-IsKept c.stability_window (person_of o) (note_seen d o shown) (
          note_seen-IsKept d o shown (
            show_faces-IsKept d capture.faces (tally capture.dropped s)
              (tally-IsKept capture.dropped s k))))
  apply-IsKept known (refreshed valid) s h k = refreshed-IsKept valid s h k
  apply-IsKept known (ticked d) s h k = expire-IsKept d "expired" (expire_if_due d.now s.cache) s k
  apply-IsKept known (cleared d reason) s h k = expire-IsKept d reason (none, s.cache) s k

  apply_all-IsKept :
      (known : ℕ → Option MatchResult) (os : List Op) (s : PipelineCore)
      → All (StaysEnrolled p) os
      → IsKept s
      → IsKept (apply_all c known os s)
  unfolding apply_all
  apply_all-IsKept known [] s h k = k
  apply_all-IsKept known (o ∷ os) s h k =
      apply_all-IsKept known os (apply c known o s) h.1 (apply-IsKept known o s h.0 k)

  start-IsKept : IsKept new_core
  unfolding IsKept IsLatest
  start-IsKept = (refl, tt)

  -- Whatever frames come, and whatever is expired and cleared in between, at whatever times: the
  -- greetings of a person who is enrolled whenever the matcher is refreshed are a cooldown apart.
  pub process_capture-IsApart :
      (known : ℕ → Option MatchResult) (os : List Op)
      → All (StaysEnrolled p) os
      → IsApart c.cooldown_ms (greetings p (apply_all c known os new_core).sent)
  unfolding IsKept
  process_capture-IsApart known os h = (apply_all-IsKept known os new_core h start-IsKept).1
