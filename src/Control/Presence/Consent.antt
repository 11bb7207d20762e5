-- ===== src/Control/Presence/Consent.antt =====
-- What nobody may infer (`_build_entries` of
-- apps/control-plane-api/src/control_plane_api/presence_engine.py).
use doorboard.Prelude.{
  ℕ, ◌≡◌, refl, ap, ◌∙◌, sym, String, Bool, true, false, ◌&&◌, Bool-cases, inl, inr, Option, none,
  some, str_eq, eq_iff, arith,
}
use doorboard.Control.Presence.{
  PresenceLabel, Source, manual, focus_shortcut, geofence_label, calendar, fallback, same_source,
  is_inferred, SourceEntry, ResolvedPresence, expired, resolved_by, unresolved, resolve_presence,
  Database, SourceRow, is_row, source_row, upsert, blank_row, with_value, with_enabled, put_value,
  put_enabled,
}
use doorboard.Control.Presence.Sync.{
  Calendar, tracking_enabled, stored_entry, build_entries, resolve_current,
}
use doorboard.Control.Presence.Precedence.{upsert-other}

-- What "manual" and "default" say together.
abbrev pub declared : ℕ → Option SourceEntry → Option SourceEntry → ResolvedPresence
declared now m f = resolved_by now manual m (resolved_by now fallback f unresolved)

resolved_source :
    (now : ℕ) (x : Source) (o : Option SourceEntry) (rest : ResolvedPresence)
    → is_inferred x ≡ false
    → is_inferred rest.source ≡ false
    → is_inferred (resolved_by now x o rest).source ≡ false
resolved_source now x none rest h k = k
resolved_source now x (some e) rest h k = elim (Bool-cases (expired now e.until)) [
  | inl t ↦ rw t k
  | inr t ↦ rw t h
]

declared_source :
    (now : ℕ) (m f : Option SourceEntry) → is_inferred (declared now m f).source ≡ false
declared_source now m f =
    resolved_source now manual m (resolved_by now fallback f unresolved) refl
      (resolved_source now fallback f unresolved refl refl)

abbrev pub declared_by : String → ℕ → Database → ResolvedPresence
declared_by s now d =
    declared now (stored_entry (source_row s manual d.sources))
      (stored_entry (source_row s fallback d.sources))

quiet :
    (cal : Calendar) (s : String) (now : ℕ) (d : Database)
    → tracking_enabled s d ≡ false
    → resolve_current cal s now d ≡ declared_by s now d
unfolding resolve_current resolve_presence build_entries
quiet cal s now d h = rw (h) refl

module _ (cal other : Calendar) (s : String) (now at : ℕ) (d : Database) where
  declared_elsewhere :
      (x : Source) (f : SourceRow → SourceRow) (new : SourceRow)
      → is_inferred x ≡ true
      → ((y : Source) (r : SourceRow) → is_row s y (f r) ≡ is_row s y r)
      → is_row s x new ≡ true
      → declared_by s now (record d { sources = upsert s x f new d.sources }) ≡ declared_by s now d
  declared_elsewhere x f new h k n =
      rw
        (
          upsert-other s x f new k n manual (apart_manual x h) d.sources,
          upsert-other s x f new k n fallback (apart_fallback x h) d.sources,
        )
        refl
    where
      apart_manual : (x : Source) → is_inferred x ≡ true → same_source x manual ≡ false
      apart_manual manual h = cc
      apart_manual focus_shortcut h = refl
      apart_manual geofence_label h = refl
      apart_manual calendar h = refl
      apart_manual fallback h = refl

      apart_fallback : (x : Source) → is_inferred x ≡ true → same_source x fallback ≡ false
      apart_fallback manual h = refl
      apart_fallback focus_shortcut h = refl
      apart_fallback geofence_label h = refl
      apart_fallback calendar h = refl
      apart_fallback fallback h = cc

  -- Of somebody whose tracking is off, the answer comes from no source that infers, it is the same for
  -- every calendar, and no write of a value or of the switch of such a source changes it.
  pub resolve_current-private :
      (x : Source) (label : Option PresenceLabel) (until : Option ℕ) (enabled : Bool)
      → tracking_enabled s d ≡ false
      → is_inferred x ≡ true
      → (is_inferred (resolve_current cal s now d).source ≡ false)
        × (resolve_current other s now d ≡ resolve_current cal s now d)
        × (resolve_current other s now (put_value s x label until at d)
            ≡ resolve_current cal s now d)
        × (resolve_current other s now (put_enabled s x enabled at d) ≡ resolve_current cal s now d)
  resolve_current-private x label until enabled off inferred =
      let own = quiet cal s now d off in
      let key : is_row s x (blank_row s x enabled at) ≡ true = same_row x in
      (
        ap (λ (r : ResolvedPresence). is_inferred r.source) own
            ∙ declared_source now (stored_entry (source_row s manual d.sources))
                (stored_entry (source_row s fallback d.sources)),
        quiet other s now d off ∙ sym own,
        quiet other s now (put_value s x label until at d) off
            ∙ declared_elsewhere x (with_value label until at) (blank_row s x true at) inferred
                (λ y r. refl) (same_row x)
            ∙ sym own,
        quiet other s now (put_enabled s x enabled at d) off
            ∙ declared_elsewhere x (with_enabled enabled at) (blank_row s x enabled at) inferred
                (λ y r. refl) key
            ∙ sym own,
      )
    where
      same_row : (x : Source) → (str_eq s s && same_source x x) ≡ true
      same_row x = rw ((eq_iff s s).1 refl) (same x)
        where
          same : (x : Source) → same_source x x ≡ true
          same x = ground arith
