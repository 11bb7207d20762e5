-- ===== src/Sync/Fence/Laws.antt =====
-- What the fence lets through (apps/door-sync/src/door_sync/fence.py).
use doorboard.Prelude.{
  ◌≡◌, refl, sym, ap, ◌∙◌, subst, true, false, inl, inr, Bool-cases, Option, none, some,
  some-injective, List, [], ◌∷◌, ◌++◌, All, arith,
}
use doorboard.Door.Session.Recipients.{Text, text_eq, has_key, strip}
use doorboard.Sync.Fence.{
  strip_slash, forbidden_roots, is_invalid, add_root, clean_roots, validate_roots, relative_to,
  is_inside, resolve_syncable,
}

text_eq→eq : (s t : Text) → text_eq s t ≡ true → s ≡ t
text_eq→eq [] [] h = refl
text_eq→eq [] (c ∷ cs) h = cc
text_eq→eq (c ∷ cs) [] h = cc
text_eq→eq (c ∷ s) (d ∷ t) h = ground (arith, text_eq→eq s t)

-- A name that may be a syncable root.
abbrev pub IsRoot : Text → Type 0
IsRoot name = (is_invalid name ≡ false) × (has_key name forbidden_roots ≡ false)

add_root-IsRoot :
    (name : Text) (o : Option (List Text)) (names : List Text)
    → IsRoot name
    → ((ns : List Text) → o ≡ some ns → All IsRoot ns)
    → add_root name o ≡ some names
    → All IsRoot names
add_root-IsRoot name none names r f h = cc
add_root-IsRoot name (some ns) names r f h =
    subst (All IsRoot) (some-injective (name ∷ ns) names h) (r, f ns refl)

clean_roots-IsRoot : (raws names : List Text) → clean_roots raws ≡ some names → All IsRoot names
unfolding clean_roots
clean_roots-IsRoot [] names h = subst (All IsRoot) (some-injective [] names h) tt
clean_roots-IsRoot (raw ∷ raws) names h =
    let name = strip_slash (strip raw) in
    elim (Bool-cases (is_invalid name)) [
      | inl e ↦ absurd (cc (rw e at h))
      | inr e ↦ elim (Bool-cases (has_key name forbidden_roots)) [
        | inl f ↦ absurd (cc (rw (e, f) at h))
        | inr f ↦
            add_root-IsRoot name (clean_roots raws) names (e, f) (clean_roots-IsRoot raws)
              (rw (e, f) at h)
      ]
    ]

-- The roots that the settings may name are single directory names that hold no identity data.
pub validate_roots-IsRoot :
    (raws : List Text) {names : List Text} → validate_roots raws ≡ some names → All IsRoot names
unfolding validate_roots
validate_roots-IsRoot [] h = cc
validate_roots-IsRoot (raw ∷ raws) {names} h = clean_roots-IsRoot (raw ∷ raws) names h

All-has_key :
    (P : Text → Type 0) (t : Text) (names : List Text) → All P names → has_key t names ≡ true → P t
All-has_key P t [] h e = cc
All-has_key P t (n ∷ ns) h e = elim (Bool-cases (text_eq n t)) [
  | inl f ↦ subst P (text_eq→eq n t f) h.0
  | inr f ↦ All-has_key P t ns h.1 (rw f at e)
]

relative_to-append :
    (path root : List Text) {rest : List Text}
    → relative_to path root ≡ some rest
    → path ≡ root ++ rest
relative_to-append path [] h = some-injective path _ h
relative_to-append [] (r ∷ root) h = cc
relative_to-append (p ∷ path) (r ∷ root) {rest} h = elim (Bool-cases (text_eq p r)) [
  | inl e ↦
      ap (λ x. x ∷ path) (text_eq→eq p r e)
      ∙ ap (λ x. r ∷ x) (relative_to-append path root (rw e at h))
  | inr e ↦ absurd (cc (rw e at h))
]

inside_parts :
    (roots : List Text) (o : Option (List Text))
    → is_inside roots o ≡ true
    → (top : Text) × (rest : List Text) × (o ≡ some (top ∷ rest)) × (has_key top roots ≡ true)
inside_parts roots none h = cc
inside_parts roots (some []) h = cc
inside_parts roots (some (top ∷ rest)) h = (top, rest, refl, h)

-- With roots that were validated, a path that the fence lets through is the resolved one, and lies
-- below the data root in a directory that is one of the syncable roots and none of those that hold
-- identity data, whatever the file system resolves.
pub resolve_syncable-inside :
    (resolve : List Text → Text → List Text) (rel_path : Text) (root raws : List Text)
    {names path : List Text}
    → validate_roots raws ≡ some names
    → resolve_syncable resolve rel_path root names ≡ some path
    → (top : Text) × (rest : List Text) × (path ≡ resolve root rel_path)
      × (path ≡ root ++ top ∷ rest)
      × (has_key top names ≡ true)
      × (has_key top forbidden_roots ≡ false)
unfolding resolve_syncable
resolve_syncable-inside resolve rel_path root raws {names} {path} v h =
    let resolved = resolve root rel_path in
    elim (Bool-cases (is_inside names (relative_to resolved root))) [
      | inr e ↦ absurd (cc (rw e at h))
      | inl e ↦
          let (top, rest, there, key) = inside_parts names (relative_to resolved root) e in
          let same : resolved ≡ path = some-injective resolved path (rw e at h) in
          (
            top,
            rest,
            sym same,
            sym same ∙ relative_to-append resolved root there,
            key,
            (All-has_key IsRoot top names (validate_roots-IsRoot raws v) key).1,
          )
    ]

text_eq_refl : (s : Text) → text_eq s s ≡ true
text_eq_refl [] = refl
text_eq_refl (c ∷ cs) = ground (arith, text_eq_refl cs)

relative_to-root : (root rest : List Text) → relative_to (root ++ rest) root ≡ some rest
relative_to-root [] rest = refl
relative_to-root (r ∷ root) rest = rw (text_eq_refl r) (relative_to-root root rest)

-- The fence is no stricter: a text that resolves to a path in a syncable root is let through.
pub resolve_syncable-passes :
    (resolve : List Text → Text → List Text) (rel_path top : Text) (root roots rest : List Text)
    → resolve root rel_path ≡ root ++ top ∷ rest
    → has_key top roots ≡ true
    → resolve_syncable resolve rel_path root roots ≡ some (root ++ top ∷ rest)
unfolding resolve_syncable
resolve_syncable-passes resolve rel_path top root roots rest e k =
    rw (e, relative_to-root root (top ∷ rest), k) refl
