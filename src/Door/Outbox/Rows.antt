-- ===== src/Door/Outbox/Rows.antt =====
-- The statements on the rows of an outbox table
-- (apps/door-api/src/door_api/persistence.py), one lemma for each pair that meets.
use doorboard.Prelude.{
  ℕ, zero, suc, String, ◌≤◌, ◌≡◌, refl, ap, true, false, List, [], ◌∷◌, ◌++◌, arith, length, drop,
  ◌==◌, if◌then◌else◌,
}
use doorboard.Door.Outbox.{Row, has_id, delete, reschedule}

-- No two rows share an id: the primary key.
abbrev pub Unique {ℓ} : {E : Type ℓ} → List (Row E) → Type 0
Unique [] = Unit
Unique (r ∷ rs) = (has_id r.event_id rs ≡ false) × Unique rs

module _ {ℓ} {E : Type ℓ} where
  pub has_id-append :
      (k : ℕ) (xs ys : List (Row E))
      → has_id k (xs ++ ys) ≡ (if has_id k xs then true else has_id k ys)
  has_id-append k [] ys = refl
  has_id-append k (r ∷ rs) ys = ground (arith, has_id-append k rs ys)

  pub has_id-drop :
      (n k : ℕ) (xs : List (Row E)) → has_id k xs ≡ false → has_id k (drop n xs) ≡ false
  has_id-drop zero k xs h = h
  has_id-drop (suc n) k [] h = h
  has_id-drop (suc n) k (r ∷ rs) h = has_id-drop n k rs (ground arith)

  pub Unique-drop : (n : ℕ) (xs : List (Row E)) → Unique xs → Unique (drop n xs)
  Unique-drop zero xs h = h
  Unique-drop (suc n) [] h = h
  Unique-drop (suc n) (r ∷ rs) h = Unique-drop n rs h.1

  pub Unique-append_new :
      (xs : List (Row E)) (r : Row E)
      → Unique xs
      → has_id r.event_id xs ≡ false
      → Unique (xs ++ r ∷ [])
  Unique-append_new [] r u h = (refl, tt)
  Unique-append_new (x ∷ xs) r u h =
      ground (arith, has_id-append x.event_id xs (r ∷ []), Unique-append_new xs r u.1)

  pub has_id-delete :
      (k j : ℕ) (xs : List (Row E))
      → has_id j (delete k xs) ≡ (if k == j then false else has_id j xs)
  has_id-delete k j [] = ground arith
  has_id-delete k j (r ∷ rs) = ground (arith, has_id-delete k j rs)

  pub Unique-delete : (k : ℕ) (xs : List (Row E)) → Unique xs → Unique (delete k xs)
  Unique-delete k [] u = u
  Unique-delete k (r ∷ rs) u = ground (arith, has_id-delete k r.event_id rs, Unique-delete k rs u.1)

  pub length-delete : (k : ℕ) (xs : List (Row E)) → length (delete k xs) ≤ length xs
  length-delete k [] = omega arith
  length-delete k (r ∷ rs) = ground (arith, length-delete k rs)

  pub delete_absent : (k : ℕ) (xs : List (Row E)) → has_id k xs ≡ false → delete k xs ≡ xs
  delete_absent k [] h = refl
  delete_absent k (r ∷ rs) h = ground (arith, delete_absent k rs)

  pub has_id-reschedule :
      (k n at : ℕ) (e : String) (j : ℕ) (xs : List (Row E))
      → has_id j (reschedule k n at e xs) ≡ has_id j xs
  has_id-reschedule k n at e j [] = refl
  has_id-reschedule k n at e j (r ∷ rs) = ground (arith, has_id-reschedule k n at e j rs)

  pub Unique-reschedule :
      (k n at : ℕ) (e : String) (xs : List (Row E)) → Unique xs → Unique (reschedule k n at e xs)
  Unique-reschedule k n at e [] u = u
  Unique-reschedule k n at e (r ∷ rs) u =
      ground (arith, has_id-reschedule k n at e r.event_id rs, Unique-reschedule k n at e rs u.1)

  pub length-reschedule :
      (k n at : ℕ) (e : String) (xs : List (Row E)) → length (reschedule k n at e xs) ≡ length xs
  length-reschedule k n at e [] = refl
  length-reschedule k n at e (r ∷ rs) = ap suc (length-reschedule k n at e rs)
