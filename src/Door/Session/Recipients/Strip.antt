-- ===== src/Door/Session/Recipients/Strip.antt =====
-- `str.strip` of Python, which `_normalize_recipients` of apps/door-api/src/door_api/session.py
-- calls, on the code points that Python counts as whitespace.
use doorboard.Prelude.{
  ℕ, ◌≡◌, refl, ap, ◌∙◌, Bool, false, ◌||◌, ◌&&◌, List, [], ◌∷◌, leb, ◌==◌, arith, if◌then◌else◌,
}

abbrev pub Text : Type 0
Text = List ℕ

pub is_space : ℕ → Bool
is_space c =
    (leb 9 c && leb c 13)
    || (leb 28 c && leb c 32)
    || c == 0x85
    || c == 0xa0
    || c == 0x1680
    || (leb 0x2000 c && leb c 0x200a)
    || (leb 0x2028 c && leb c 0x2029)
    || c == 0x202f
    || c == 0x205f
    || c == 0x3000

pub lstrip : Text → Text
lstrip [] = []
lstrip (c ∷ cs) = let rest = lstrip cs in if is_space c then rest else c ∷ cs

-- A space stays only in front of what stays.
abbrev keep : ℕ → Text → Text
keep c [] = if is_space c then [] else c ∷ []
keep c (d ∷ ds) = c ∷ d ∷ ds

pub rstrip : Text → Text
rstrip [] = []
rstrip (c ∷ cs) = keep c (rstrip cs)

unfoldable pub strip : Text → Text
unfolding lstrip rstrip is_space
strip s = rstrip (lstrip s)

-- The first character, if there is one, is no space.
abbrev Starts : Text → Type 0
Starts [] = Unit
Starts (c ∷ cs) = is_space c ≡ false

lstrip-Starts : (s : Text) → Starts (lstrip s)
unfolding lstrip
lstrip-Starts [] = tt
lstrip-Starts (c ∷ cs) = ground (arith, lstrip-Starts cs)

lstrip_of_Starts : (s : Text) → Starts s → lstrip s ≡ s
unfolding lstrip
lstrip_of_Starts [] h = refl
lstrip_of_Starts (c ∷ cs) h = ground arith

rstrip-keep : (c : ℕ) (s : Text) → rstrip s ≡ s → rstrip (keep c s) ≡ keep c s
unfolding rstrip
rstrip-keep c [] h = ground arith
rstrip-keep c (d ∷ ds) h = ground arith

rstrip_idem : (s : Text) → rstrip (rstrip s) ≡ rstrip s
unfolding rstrip
rstrip_idem [] = refl
rstrip_idem (c ∷ cs) = rstrip-keep c (rstrip cs) (rstrip_idem cs)

rstrip-Starts : (s : Text) → Starts s → Starts (rstrip s)
unfolding rstrip
rstrip-Starts [] h = tt
rstrip-Starts (c ∷ cs) h = go (rstrip cs)
  where
    go : (t : Text) → Starts (keep c t)
    go [] = ground arith
    go (d ∷ ds) = h

-- Stripping twice is stripping once.
pub strip_idem : (s : Text) → strip (strip s) ≡ strip s
unfolding strip
strip_idem s =
    ap rstrip (lstrip_of_Starts (rstrip (lstrip s)) (rstrip-Starts (lstrip s) (lstrip-Starts s)))
    ∙ rstrip_idem (lstrip s)
