-- ===== src/Door/Session/Recipients.antt =====
-- `_normalize_recipients` (apps/door-api/src/door_api/session.py). A text is the list of its code
-- points. An entry of the list that is no `str` is `none`.
mod Strip
pub mod Laws
pub use Strip.{Text, is_space, lstrip, rstrip}
unfoldable pub use Strip.{strip}
use doorboard.Prelude.{
  ℕ, suc, Bool, true, false, ◌||◌, ◌&&◌, Option, none, some, List, [], ◌∷◌, ◌++◌, length, leb, ltb,
  ◌==◌, if◌then◌else◌,
}

abbrev pub text_eq : Text → Text → Bool
text_eq [] [] = true
text_eq (a ∷ s) (b ∷ t) = a == b && text_eq s t
text_eq _ _ = false

-- `key in cleaned`
abbrev pub has_key : Text → List Text → Bool
has_key k [] = false
has_key k (j ∷ js) = text_eq j k || has_key k js

abbrev pub max_recipients : ℕ
max_recipients = 16

abbrev pub max_recipient_key_len : ℕ
max_recipient_key_len = 64

-- `not key or len(key) > _MAX_RECIPIENT_KEY_LEN`
abbrev pub is_refused : Text → Bool
is_refused k = length k == 0 || ltb max_recipient_key_len (length k)

abbrev pub add_key : Text → List Text → List Text
add_key k cleaned = if has_key k cleaned then cleaned else cleaned ++ k ∷ []

-- The loop over the entries; `break` once there are enough.
unfoldable pub clean : List (Option Text) → List Text → List Text
clean [] cleaned = cleaned
clean (none ∷ raws) cleaned = clean raws cleaned
clean (some raw ∷ raws) cleaned =
    let key = strip raw in
    let skip = clean raws cleaned in
    let more = clean raws (add_key key cleaned) in
    if is_refused key
    then skip
    else if leb max_recipients (length (add_key key cleaned))
    then add_key key cleaned
    else more

-- `cleaned or None`
abbrev pub or_none : List Text → Option (List Text)
or_none [] = none
or_none (k ∷ ks) = some (k ∷ ks)

unfoldable pub normalize_recipients : Option (List (Option Text)) → Option (List Text)
unfolding clean
normalize_recipients none = none
normalize_recipients (some raws) = or_none (clean raws [])
