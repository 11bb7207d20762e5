-- ===== src/Control/Presence/Precedence.antt =====
-- Which source wins (apps/control-plane-api/src/control_plane_api/presence.py and presence_engine.py).
use doorboard.Prelude.{
  ℕ, ◌≡◌, refl, ap, ◌∙◌, sym, String, Bool, true, false, ◌&&◌, not, inl, inr, ◌⊎◌, Bool-cases,
  Option, none, some, get_or, List, [], ◌∷◌, ◌++◌, All, ◌==◌, str_eq, eq_iff, arith, if◌then◌else◌,
}
use doorboard.Control.Presence.{
  PresenceLabel, Source, manual, focus_shortcut, geofence_label, calendar, fallback, code,
  same_source, source_precedence, SourceEntry, ResolvedPresence, expired, resolved_by, unresolved,
  resolve_along, resolve_presence, SourceRow, Database, is_row, source_row, upsert, blank_row,
  with_value, enable, set_manual_override, clear_manual_override,
}
use doorboard.Control.Presence.Sync.{Calendar, stored_entry, build_entries, resolve_current}

abbrev pub is_live : ℕ → Option SourceEntry → Bool
is_live now none = false
is_live now (some e) = not (expired now e.until)

-- The entry of one of the sources is live and gives the answer, and none before it is live.
pub record FirstLive (now : ℕ) (entries : Source → Option SourceEntry) (xs : List Source)
    (r : ResolvedPresence) : Type 0 where
  pub before : List Source
  pub behind : List Source
  pub entry : SourceEntry
  pub stands : xs ≡ before ++ r.source ∷ behind
  pub silent : All (λ y. is_live now (entries y) ≡ false) before
  pub speaks : entries r.source ≡ some entry
  pub live : is_live now (some entry) ≡ true
  pub answer : r ≡ record { label = entry.label; source = r.source; until = entry.until }

abbrev pub Resolves : ℕ → (Source → Option SourceEntry) → List Source → ResolvedPresence → Type 0
Resolves now entries xs r =
    FirstLive now entries xs r ⊎ ((r ≡ unresolved) × All (λ y. is_live now (entries y) ≡ false) xs)

module _ (now : ℕ) (entries : Source → Option SourceEntry) where
  passed :
      (x : Source) (xs : List Source) (r : ResolvedPresence)
      → is_live now (entries x) ≡ false
      → Resolves now entries xs r
      → Resolves now entries (x ∷ xs) r
  passed x xs r h (inl f) = inl (record {
    before = x ∷ f.before;
    behind = f.behind;
    entry = f.entry;
    stands = ap (λ ys. x ∷ ys) f.stands;
    silent = (h, f.silent);
    speaks = f.speaks;
    live = f.live;
    answer = f.answer;
  })
  passed x xs r h (inr f) = inr (f.0, (h, f.1))

  step :
      (x : Source) (xs : List Source) (rest : ResolvedPresence) (o : Option SourceEntry)
      → entries x ≡ o
      → Resolves now entries xs rest
      → Resolves now entries (x ∷ xs) (resolved_by now x o rest)
  step x xs rest none e h = passed x xs rest (ap (is_live now) e) h
  step x xs rest (some v) e h = elim (Bool-cases (expired now v.until)) [
    | inl t ↦ rw t (passed x xs rest (ap (is_live now) e ∙ ap not t) h)
    | inr t ↦ rw t (
        inl (record {
          before = [];
          behind = xs;
          entry = v;
          stands = refl;
          silent = tt;
          speaks = e;
          live = ap not t;
          answer = refl;
        }))
  ]

  along : (xs : List Source) → Resolves now entries xs (resolve_along now entries xs)
  along [] = inr (refl, tt)
  along (x ∷ xs) = step x xs (resolve_along now entries xs) (entries x) refl (along xs)

  -- The answer is the entry of the first source, in the order of precedence, whose entry is there and
  -- not expired; where no source has one, it is `unknown` from `default` without an end.
  pub resolve_presence-Resolves :
      Resolves now entries source_precedence (resolve_presence entries now)
  unfolding resolve_presence
  resolve_presence-Resolves = along source_precedence

along_same :
    (now : ℕ) (f g : Source → Option SourceEntry) (xs : List Source)
    → All (λ x. f x ≡ g x) xs
    → resolve_along now f xs ≡ resolve_along now g xs
along_same now f g [] h = refl
along_same now f g (x ∷ xs) h =
    ap (λ o. resolved_by now x o (resolve_along now f xs)) h.0
    ∙ ap (resolved_by now x (g x)) (along_same now f g xs h.1)

other_row :
    (s : String) (x y : Source) (r : SourceRow)
    → same_source x y ≡ false
    → is_row s x r ≡ true
    → is_row s y r ≡ false
other_row s x y r h e = elim (Bool-cases (code r.source == code y)) [
  | inl f ↦ absurd (ground (arith, h, e, f))
  | inr f ↦ rw f (and_false (str_eq r.subject_id s))
]
  where
    and_false : (b : Bool) → (b && false) ≡ false
    and_false true = refl
    and_false false = refl

module _ (s : String) (x : Source) (f : SourceRow → SourceRow) (new : SourceRow) where
  source_row-upsert :
      ((y : Source) (r : SourceRow) → is_row s y (f r) ≡ is_row s y r)
      → is_row s x new ≡ true
      → (rs : List SourceRow)
      → source_row s x (upsert s x f new rs) ≡ some (f (get_or (source_row s x rs) new))
  source_row-upsert k n [] = rw (k x new, n) refl
  source_row-upsert k n (r ∷ rs) = elim (Bool-cases (is_row s x r)) [
    | inl e ↦ rw e (rw (k x r, e) refl)
    | inr e ↦ rw e (rw e (source_row-upsert k n rs))
  ]

  pub upsert-other :
      ((y : Source) (r : SourceRow) → is_row s y (f r) ≡ is_row s y r)
      → is_row s x new ≡ true
      → (y : Source) → same_source x y ≡ false
      → (rs : List SourceRow) → source_row s y (upsert s x f new rs) ≡ source_row s y rs
  upsert-other k n y d [] = rw (k y new, other_row s x y new d n) refl
  upsert-other k n y d (r ∷ rs) = elim (Bool-cases (is_row s x r)) [
    | inl e ↦ rw e (rw (k y r, other_row s x y r d e) refl)
    | inr e ↦ rw e (ap (λ o. if is_row s y r then some r else o) (upsert-other k n y d rs))
  ]

same_key : (s : String) → (str_eq s s && true) ≡ true
same_key s = rw ((eq_iff s s).1 refl) refl

abbrev pub overriding : PresenceLabel → Option ℕ → ResolvedPresence
overriding label until = record { label = label; source = manual; until = until }

module _ (cal : Calendar) (s : String) (now at : ℕ) (d : Database) where
  -- The four sources behind "manual".
  abbrev behind_manual : List Source
  behind_manual = focus_shortcut ∷ geofence_label ∷ calendar ∷ fallback ∷ []

  -- A change of the row of "manual" leaves what the others say.
  others_stay :
      (f : SourceRow → SourceRow) (new : SourceRow)
      → ((y : Source) (r : SourceRow) → is_row s y (f r) ≡ is_row s y r)
      → is_row s manual new ≡ true
      → All
          (λ x.
            build_entries cal s now (record d { sources = upsert s manual f new d.sources }) x
            ≡ build_entries cal s now d x)
          behind_manual
  unfolding build_entries
  others_stay f new k n =
      let row : (y : Source)
          → same_source manual y ≡ false
          → source_row s y (upsert s manual f new d.sources) ≡ source_row s y d.sources =
        λ y h. upsert-other s manual f new k n y h d.sources in
      (
        rw (row focus_shortcut refl) refl,
        (
          rw (row geofence_label refl) refl,
          (rw (row calendar refl) refl, (rw (row fallback refl) refl, tt)),
        ),
      )

  -- An override by hand is the answer at every time before its end, and for ever where it has none,
  -- whatever the other sources and the calendar say; from its end on the answer is that of the other
  -- sources, as if the override had been cleared.
  pub set_manual_override-resolves :
      (label : PresenceLabel) (until : Option ℕ)
      → resolve_current cal s now (set_manual_override s label until at d) ≡ (
          if expired now until
          then resolve_current cal s now (clear_manual_override s at d)
          else overriding label until)
  unfolding resolve_current resolve_presence set_manual_override clear_manual_override build_entries
  set_manual_override-resolves label until =
      let f : SourceRow → SourceRow = λ r. enable (with_value (some label) until at r) in
      let g : SourceRow → SourceRow = with_value none none at in
      let new = blank_row s manual true at in
      let held : source_row s manual (upsert s manual f new d.sources)
          ≡ some (f (get_or (source_row s manual d.sources) new)) =
        source_row-upsert s manual f new (λ y r. refl) (same_key s) d.sources in
      let cleared : source_row s manual (upsert s manual g new d.sources)
          ≡ some (g (get_or (source_row s manual d.sources) new)) =
        source_row-upsert s manual g new (λ y r. refl) (same_key s) d.sources in
      let rest = λ (e : Database). resolve_along now (build_entries cal s now e) behind_manual in
      let a = put f new in
      let b = put g new in
      let front : resolve_along now (build_entries cal s now a) source_precedence
          ≡ resolved_by now manual (some (record { label = label; until = until })) (rest a) =
        ap (λ o. resolved_by now manual (stored_entry o) (rest a)) held in
      let back : resolve_along now (build_entries cal s now b) source_precedence ≡ rest b =
        ap (λ o. resolved_by now manual (stored_entry o) (rest b)) cleared
        ∙ nothing (get_or (source_row s manual d.sources) new).enabled (rest b) in
      let same : rest a ≡ rest b =
        along_same now (build_entries cal s now a) (build_entries cal s now d) behind_manual
          (others_stay f new (λ y r. refl) (same_key s))
        ∙ sym (
            along_same now (build_entries cal s now b) (build_entries cal s now d) behind_manual
              (others_stay g new (λ y r. refl) (same_key s))) in
      front ∙ ap (λ r. if expired now until then r else overriding label until) (same ∙ sym back)
    where
      put : (SourceRow → SourceRow) → SourceRow → Database
      put f new = record d { sources = upsert s manual f new d.sources }

      nothing :
          (b : Bool) (r : ResolvedPresence)
          → resolved_by now manual (if b then none else none) r ≡ r
      nothing true r = refl
      nothing false r = refl
