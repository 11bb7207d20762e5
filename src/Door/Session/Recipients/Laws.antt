-- ===== src/Door/Session/Recipients/Laws.antt =====
-- What `_normalize_recipients` guarantees (apps/door-api/src/door_api/session.py).
use doorboard.Prelude.{
  ◌+◌, ◌≤◌, ◌<◌, ◌≡◌, refl, ◌⊎◌, inl, inr, true, false, ◌||◌, Option, none, some, List, [], ◌∷◌,
  ◌++◌, arith, length, length-append, leb, All, All-append, map, Bool-cases, dec_lt, subst, sym,
  ◌∙◌, ap,
}
use mathlib.Core.List.{append_assoc, append-nil}
use doorboard.Door.Session.Recipients.{
  Text, strip, text_eq, has_key, is_refused, add_key, clean, or_none, normalize_recipients,
  max_recipients, max_recipient_key_len,
}
use doorboard.Door.Session.Recipients.Strip.{strip_idem}

-- A key is not empty, not too long, and has no space at its ends.
abbrev pub IsKey : Text → Type 0
IsKey k = (0 < length k) × (length k ≤ max_recipient_key_len) × (strip k ≡ k)

-- No key stands in the list twice.
abbrev pub Distinct : List Text → Type 0
Distinct [] = Unit
Distinct (k ∷ ks) = (has_key k ks ≡ false) × Distinct ks

pub record IsClean (ks : List Text) : Type 0 where
  pub keys : All IsKey ks
  pub distinct : Distinct ks
  pub capped : length ks ≤ max_recipients

text_eq_refl : (s : Text) → text_eq s s ≡ true
text_eq_refl [] = refl
text_eq_refl (c ∷ cs) = ground (arith, text_eq_refl cs)

text_eq_symm : (s t : Text) → text_eq s t ≡ text_eq t s
text_eq_symm [] [] = refl
text_eq_symm [] (d ∷ ds) = refl
text_eq_symm (c ∷ cs) [] = refl
text_eq_symm (c ∷ cs) (d ∷ ds) = ground (arith, text_eq_symm cs ds)

has_key-append :
    (k : Text) (xs ys : List Text) → has_key k (xs ++ ys) ≡ (has_key k xs || has_key k ys)
has_key-append k [] ys = refl
has_key-append k (x ∷ xs) ys = ground (arith, has_key-append k xs ys)

Distinct-add :
    (k : Text) (ks : List Text) → Distinct ks → has_key k ks ≡ false → Distinct (ks ++ k ∷ [])
Distinct-add k [] d h = (refl, tt)
Distinct-add k (j ∷ ks) d h =
    ground (arith, has_key-append j ks (k ∷ []), text_eq_symm k j, Distinct-add k ks d.1)

add_key-has_key : (k : Text) (ks : List Text) → has_key k (add_key k ks) ≡ true
add_key-has_key k ks = ground (arith, has_key-append k ks (k ∷ []), text_eq_refl k)

add_key-IsClean :
    (k : Text) (ks : List Text)
    → IsClean ks
    → length ks < max_recipients
    → is_refused (strip k) ≡ false
    → IsClean (add_key (strip k) ks)
add_key-IsClean k ks v room fine = elim (Bool-cases (has_key (strip k) ks)) [
  | inl old ↦ rw old v
  | inr new ↦ rw new (record {
    keys = All-append IsKey ks _ v.keys ((ground arith, ground arith, strip_idem k), tt);
    distinct = Distinct-add (strip k) ks v.distinct new;
    capped = omega (arith, length-append {0});
  })
]

clean-IsClean :
    (raws : List (Option Text)) (ks : List Text)
    → IsClean ks
    → length ks < max_recipients
    → IsClean (clean raws ks)
unfolding clean
clean-IsClean [] ks v room = v
clean-IsClean (none ∷ raws) ks v room = clean-IsClean raws ks v room
clean-IsClean (some raw ∷ raws) ks v room = elim (Bool-cases (is_refused (strip raw))) [
  | inl refused ↦ rw refused (clean-IsClean raws ks v room)
  | inr fine ↦ elim (Bool-cases (leb max_recipients (length (add_key (strip raw) ks)))) [
    | inl full ↦ rw (fine, full) (add_key-IsClean raw ks v room fine)
    | inr more ↦
        rw (fine, more)
          (clean-IsClean raws (add_key (strip raw) ks) (add_key-IsClean raw ks v room fine)
            (ground arith))
  ]
]

-- What is kept holds between 1 and 16 distinct keys, each of 1 to 64 characters with no space at
-- its ends.
pub normalize_recipients-IsClean :
    (recipients : Option (List (Option Text))) {ks : List Text}
    → normalize_recipients recipients ≡ some ks
    → (0 < length ks) × IsClean ks
unfolding normalize_recipients
normalize_recipients-IsClean none h = cc
normalize_recipients-IsClean (some raws) {ks} h =
    go (clean raws []) (clean-IsClean raws [] (omega arith) (omega arith)) h
  where
    go : (js : List Text) → IsClean js → or_none js ≡ some ks → (0 < length ks) × IsClean ks
    go [] v e = cc
    go (j ∷ js) v e =
        let e' : (j ∷ js) ≡ ks = cc in subst (λ l. (0 < length l) × IsClean l) e' (omega arith, v)

-- An entry is refused, or its text is in the list.
abbrev pub Kept : List Text → Option Text → Type 0
Kept ks none = Unit
Kept ks (some raw) = (is_refused (strip raw) ≡ true) ⊎ (has_key (strip raw) ks ≡ true)

-- What has been collected stays.
clean-has_key :
    (j : Text) (raws : List (Option Text)) (ks : List Text)
    → has_key j ks ≡ true
    → has_key j (clean raws ks) ≡ true
unfolding clean
clean-has_key j [] ks h = h
clean-has_key j (none ∷ raws) ks h = clean-has_key j raws ks h
clean-has_key j (some raw ∷ raws) ks h = ground (
  arith,
  has_key-append j ks (strip raw ∷ []),
  clean-has_key j raws ks h,
  clean-has_key j raws (add_key (strip raw) ks),
)

-- The three ways through one round of the loop.
module _ (raw : Text) (raws : List (Option Text)) (ks : List Text) where
  clean_refused : is_refused (strip raw) ≡ true → clean (some raw ∷ raws) ks ≡ clean raws ks
  unfolding clean
  clean_refused h = rw h

  clean_full :
      is_refused (strip raw) ≡ false
      → leb max_recipients (length (add_key (strip raw) ks)) ≡ true
      → clean (some raw ∷ raws) ks ≡ add_key (strip raw) ks
  unfolding clean
  clean_full h f = rw (h, f)

  clean_more :
      is_refused (strip raw) ≡ false
      → leb max_recipients (length (add_key (strip raw) ks)) ≡ false
      → clean (some raw ∷ raws) ks ≡ clean raws (add_key (strip raw) ks)
  unfolding clean
  clean_more h f = rw (h, f)

clean-none : (raws : List (Option Text)) (ks : List Text) → clean (none ∷ raws) ks ≡ clean raws ks
unfolding clean
clean-none raws ks = refl

-- A new key is collected, and the loop goes on while there is room.
module _ (y : Text) (raws : List (Option Text)) (ks : List Text) (key : IsKey y) where
  clean_key :
      has_key y ks ≡ false
      → length ks + 1 < max_recipients
      → clean (some y ∷ raws) ks ≡ clean raws (ks ++ y ∷ [])
  clean_key new room =
      let fine : is_refused (strip y) ≡ false = rw key.2 (ground arith) in
      let more : leb max_recipients (length (add_key (strip y) ks)) ≡ false =
        rw (key.2, new) (ground (arith, length-append {0} ks (y ∷ []))) in
      clean_more y raws ks fine more ∙ rw (key.2, new) refl

  clean_last_key :
      has_key y ks ≡ false
      → length ks + 1 ≡ max_recipients
      → clean (some y ∷ raws) ks ≡ ks ++ y ∷ []
  clean_last_key new room =
      let fine : is_refused (strip y) ≡ false = rw key.2 (ground arith) in
      let full : leb max_recipients (length (add_key (strip y) ks)) ≡ true =
        rw (key.2, new) (ground (arith, length-append {0} ks (y ∷ []))) in
      clean_full y raws ks fine full ∙ rw (key.2, new) refl

-- Every entry that is not refused is kept, unless the cap is reached.
abbrev pub IsComplete : List (Option Text) → List Text → Type 0
IsComplete raws ks = (max_recipients ≤ length ks) ⊎ All (Kept ks) raws

IsComplete-cons :
    (e : Option Text) (raws : List (Option Text)) (ks : List Text)
    → Kept ks e
    → IsComplete raws ks
    → IsComplete (e ∷ raws) ks
IsComplete-cons e raws ks k (inl full) = inl full
IsComplete-cons e raws ks k (inr kept) = inr (k, kept)

clean-IsComplete : (raws : List (Option Text)) (ks : List Text) → IsComplete raws (clean raws ks)
clean-IsComplete [] ks = inr tt
clean-IsComplete (none ∷ raws) ks =
    subst (IsComplete (none ∷ raws)) (sym (clean-none raws ks))
      (IsComplete-cons none raws (clean raws ks) tt (clean-IsComplete raws ks))
clean-IsComplete (some raw ∷ raws) ks = elim (Bool-cases (is_refused (strip raw))) [
  | inl refused ↦
      subst (IsComplete (some raw ∷ raws)) (sym (clean_refused raw raws ks refused))
        (IsComplete-cons (some raw) raws (clean raws ks) (inl refused) (clean-IsComplete raws ks))
  | inr fine ↦ elim (Bool-cases (leb max_recipients (length (add_key (strip raw) ks)))) [
    | inl full ↦ inl (rw (clean_full raw raws ks fine full) (ground arith))
    | inr more ↦
        let ks' = add_key (strip raw) ks in
        subst (IsComplete (some raw ∷ raws)) (sym (clean_more raw raws ks fine more)) (
          IsComplete-cons (some raw) raws (clean raws ks')
            (inr (clean-has_key (strip raw) raws ks' (add_key-has_key (strip raw) ks)))
            (clean-IsComplete raws ks'))
  ]
]

Distinct-middle : (k : Text) (xs ys : List Text) → Distinct (xs ++ k ∷ ys) → has_key k xs ≡ false
Distinct-middle k [] ys d = refl
Distinct-middle k (x ∷ xs) ys d =
    ground (arith, has_key-append x xs (k ∷ ys), text_eq_symm k x, Distinct-middle k xs ys d.1)

clean_again :
    (ys xs : List Text)
    → All IsKey ys
    → Distinct (xs ++ ys)
    → length (xs ++ ys) ≤ max_recipients
    → clean (map some ys) xs ≡ xs ++ ys
clean_again [] xs keys d few = unfold clean in sym (append-nil xs)
clean_again (y ∷ []) xs keys d few = elim (dec_lt (length xs + 1) max_recipients) [
  | yes room ↦ clean_key y [] xs keys.0 (Distinct-middle y xs [] d) room ∙ unfold clean in refl
  | no full ↦
      clean_last_key y [] xs keys.0 (Distinct-middle y xs [] d)
        (omega (arith, length-append {0} xs (y ∷ [])))
]
clean_again (y ∷ z ∷ ys) xs keys d few =
    let assoc = append_assoc xs (y ∷ []) (z ∷ ys) in
    clean_key y (map some (z ∷ ys)) xs keys.0 (Distinct-middle y xs (z ∷ ys) d)
      (omega (arith, length-append {0} xs (y ∷ z ∷ ys)))
    ∙ clean_again (z ∷ ys) (xs ++ y ∷ []) keys.1 (subst Distinct (sym assoc) d)
        (subst (λ l. length l ≤ max_recipients) (sym assoc) few)
    ∙ assoc

or_none-some : (js : List Text) {ks : List Text} → or_none js ≡ some ks → js ≡ ks
or_none-some [] h = cc
or_none-some (j ∷ js) h = cc

-- What is kept has 16 keys or holds, stripped, every entry that is neither empty nor too long; and
-- normalising what was returned changes nothing.
pub normalize_recipients-IsComplete :
    (raws : List (Option Text)) {ks : List Text}
    → normalize_recipients (some raws) ≡ some ks
    → IsComplete raws ks × (normalize_recipients (some (map some ks)) ≡ some ks)
unfolding normalize_recipients
normalize_recipients-IsComplete raws {ks} h =
    let same = or_none-some (clean raws []) h in
    let v = (normalize_recipients-IsClean (some raws) h).1 in
    (
      subst (IsComplete raws) same (clean-IsComplete raws []),
      ap or_none (clean_again ks [] v.keys v.distinct v.capped) ∙ ap or_none (sym same) ∙ h,
    )
