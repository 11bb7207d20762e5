-- ===== src/Sync/Fence.antt =====
-- The biometric fence of apps/door-sync/src/door_sync/fence.py. A text is the list of its code points,
-- and a path the list of its parts. `Path.resolve` of the file system is an argument: it takes the
-- root's parts and a relative text to the parts of the resolved path.
pub mod Laws
use doorboard.Prelude.{
  ℕ, Bool, true, false, ◌||◌, ◌&&◌, not, Option, none, some, List, [], ◌∷◌, ◌==◌, if◌then◌else◌,
}
use doorboard.Door.Session.Recipients.{Text, text_eq, has_key, strip}

abbrev pub slash : ℕ
slash = 47

abbrev dot : ℕ
dot = 46

-- `"/" in name`
abbrev pub has_slash : Text → Bool
has_slash [] = false
has_slash (c ∷ cs) = c == slash || has_slash cs

-- `.strip("/")`
abbrev lstrip_slash : Text → Text
lstrip_slash [] = []
lstrip_slash (c ∷ cs) = let rest = lstrip_slash cs in if c == slash then rest else c ∷ cs

abbrev keep : ℕ → Text → Text
keep c [] = if c == slash then [] else c ∷ []
keep c (d ∷ ds) = c ∷ d ∷ ds

abbrev rstrip_slash : Text → Text
rstrip_slash [] = []
rstrip_slash (c ∷ cs) = keep c (rstrip_slash cs)

unfoldable pub strip_slash : Text → Text
strip_slash t = rstrip_slash (lstrip_slash t)

-- `FORBIDDEN_ROOTS`: visiond, enrollment, embeddings and tmp.
abbrev pub forbidden_roots : List Text
forbidden_roots =
    (118 ∷ 105 ∷ 115 ∷ 105 ∷ 111 ∷ 110 ∷ 100 ∷ [])
    ∷ (101 ∷ 110 ∷ 114 ∷ 111 ∷ 108 ∷ 108 ∷ 109 ∷ 101 ∷ 110 ∷ 116 ∷ [])
    ∷ (101 ∷ 109 ∷ 98 ∷ 101 ∷ 100 ∷ 100 ∷ 105 ∷ 110 ∷ 103 ∷ 115 ∷ [])
    ∷ (116 ∷ 109 ∷ 112 ∷ [])
    ∷ []

-- `not name or "/" in name or name in {".", ".."}`
abbrev pub is_invalid : Text → Bool
is_invalid [] = true
is_invalid (c ∷ cs) = has_slash (c ∷ cs) || has_key (c ∷ cs) ((dot ∷ []) ∷ (dot ∷ dot ∷ []) ∷ [])

abbrev pub add_root : Text → Option (List Text) → Option (List Text)
add_root name none = none
add_root name (some names) = some (name ∷ names)

-- The loop over the roots; `none` is the `ValueError`.
unfoldable pub clean_roots : List Text → Option (List Text)
clean_roots [] = some []
clean_roots (raw ∷ raws) =
    let name = strip_slash (strip raw) in
    let rest = clean_roots raws in
    if is_invalid name
    then none
    else if has_key name forbidden_roots
    then none
    else add_root name rest

unfoldable pub validate_roots : List Text → Option (List Text)
validate_roots [] = none
validate_roots (raw ∷ raws) = clean_roots (raw ∷ raws)

-- `resolved.relative_to(root).parts`, where `none` is the `ValueError`.
abbrev pub relative_to : List Text → List Text → Option (List Text)
relative_to path [] = some path
relative_to [] (r ∷ root) = none
relative_to (p ∷ path) (r ∷ root) = if text_eq p r then relative_to path root else none

-- A path below the root whose first part is a syncable root.
abbrev pub is_inside : List Text → Option (List Text) → Bool
is_inside roots none = false
is_inside roots (some []) = false
is_inside roots (some (top ∷ rest)) = has_key top roots

-- `resolve_syncable`; `none` is the `FenceViolation`.
unfoldable pub resolve_syncable :
    (List Text → Text → List Text) → Text → List Text → List Text → Option (List Text)
resolve_syncable resolve rel_path root roots =
    let resolved = resolve root rel_path in
    if is_inside roots (relative_to resolved root) then some resolved else none
