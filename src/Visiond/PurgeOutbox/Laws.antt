-- ===== src/Visiond/PurgeOutbox/Laws.antt =====
-- A purge is never lost (apps/door-visiond/src/door_visiond/purge_outbox.py).
use doorboard.Prelude.{
  ℕ, suc, ◌≤◌, ◌≡◌, refl, ap, ◌∙◌, String, Bool, true, false, ◌||◌, inl, inr, Bool-cases, List, [],
  ◌∷◌, ◌++◌, map, arith, length, take, min, length-take, leb, str_eq, eq_iff, if◌then◌else◌,
}
use doorboard.Visiond.PurgeOutbox.{
  Row, PurgeOutbox, has_person, new_row, enqueue, due, insert, by_age, purge_of, pending,
  mark_delivered, mark_failed, depth,
}

pub data Op : Type 0 where
  enqueued : (now : ℕ) (person : String) → Op
  delivered : (person : String) → Op
  failed : (now : ℕ) (person : String) (attempts delay : ℕ) (error : String) → Op

abbrev pub apply : Op → PurgeOutbox → PurgeOutbox
apply (enqueued now p) q = (enqueue now p q).0
apply (delivered p) q = mark_delivered p q
apply (failed now p n d e) q = mark_failed now p n d e q

abbrev pub apply_all : List Op → PurgeOutbox → PurgeOutbox
apply_all [] q = q
apply_all (op ∷ ops) q = apply_all ops (apply op q)

-- Is a person's purge delivered by one of these?
abbrev pub delivers : String → List Op → Bool
delivers p [] = false
delivers p (delivered r ∷ ops) = str_eq r p || delivers p ops
delivers p (_ ∷ ops) = delivers p ops

has_person-append :
    (p : String) (q r : PurgeOutbox)
    → has_person p (q ++ r) ≡ (if has_person p q then true else has_person p r)
has_person-append p [] r = refl
has_person-append p (x ∷ xs) r = ground (arith, has_person-append p xs r)

str_eq_self : (p : String) → str_eq p p ≡ true
str_eq_self p = (eq_iff p p).1 refl

enqueue-has_person :
    (now : ℕ) (p : String) (q : PurgeOutbox) → has_person p (enqueue now p q).0 ≡ true
unfolding enqueue
enqueue-has_person now p q = elim (Bool-cases (has_person p q)) [
  | inl e ↦ rw e e
  | inr e ↦ rw (e, has_person-append p q (new_row now p ∷ []), e, str_eq_self p) refl
]

enqueue_keeps :
    (now : ℕ) (r p : String) (q : PurgeOutbox)
    → has_person p q ≡ true
    → has_person p (enqueue now r q).0 ≡ true
unfolding enqueue
enqueue_keeps now r p q h = elim (Bool-cases (has_person r q)) [
  | inl e ↦ rw e h
  | inr e ↦ rw (e, has_person-append p q (new_row now r ∷ []), h) refl
]

mark_failed-has_person :
    (now n d : ℕ) (e r p : String) (q : PurgeOutbox)
    → has_person p (mark_failed now r n d e q) ≡ has_person p q
unfolding mark_failed
mark_failed-has_person now n d e r p [] = refl
mark_failed-has_person now n d e r p (x ∷ xs) = elim (Bool-cases (str_eq x.person_id r)) [
  | inl t ↦ rw (t, mark_failed-has_person now n d e r p xs) refl
  | inr t ↦ rw (t, mark_failed-has_person now n d e r p xs) refl
]

other_stays :
    (r p : String) (q : PurgeOutbox)
    → str_eq r p ≡ false
    → has_person p (mark_delivered r q) ≡ has_person p q
unfolding mark_delivered
other_stays r p [] h = refl
other_stays r p (x ∷ xs) h = elim (Bool-cases (str_eq x.person_id r)) [
  | inl t ↦
      let same : x.person_id ≡ r = (eq_iff x.person_id r).0 t in
      let other : str_eq x.person_id p ≡ false = ap (λ s. str_eq s p) same ∙ h in
      rw (t, other) (other_stays r p xs h)
  | inr t ↦ rw (t, other_stays r p xs h) refl
]

stays :
    (op : Op) (ops : List Op) (p : String) (q : PurgeOutbox)
    → delivers p (op ∷ ops) ≡ false
    → has_person p q ≡ true
    → has_person p (apply op q) ≡ true
stays (enqueued now r) ops p q d h = enqueue_keeps now r p q h
stays (delivered r) ops p q d h = other_stays r p q (ground arith) ∙ h
stays (failed now r n t e) ops p q d h = mark_failed-has_person now n t e r p q ∙ h

later_delivers :
    (op : Op) (ops : List Op) (p : String) → delivers p (op ∷ ops) ≡ false → delivers p ops ≡ false
later_delivers (enqueued now r) ops p d = d
later_delivers (delivered r) ops p d = ground arith
later_delivers (failed now r n t e) ops p d = d

all_stay :
    (ops : List Op) (p : String) (q : PurgeOutbox)
    → delivers p ops ≡ false
    → has_person p q ≡ true
    → has_person p (apply_all ops q) ≡ true
all_stay [] p q d h = h
all_stay (op ∷ ops) p q d h =
    all_stay ops p (apply op q) (later_delivers op ops p d) (stays op ops p q d h)

-- Once a person's purge is enqueued, it is in the outbox until it is delivered, whatever else is
-- enqueued, delivered and fails, and however often it fails itself.
pub enqueue-never_lost :
    (now : ℕ) (p : String) (ops : List Op) (q : PurgeOutbox)
    → delivers p ops ≡ false
    → has_person p (apply_all ops (enqueue now p q).0) ≡ true
enqueue-never_lost now p ops q d = all_stay ops p (enqueue now p q).0 d (enqueue-has_person now p q)

length-insert : (r : Row) (q : PurgeOutbox) → length (insert r q) ≡ suc (length q)
length-insert r [] = refl
length-insert r (s ∷ ss) = elim (Bool-cases (leb r.created_epoch s.created_epoch)) [
  | inl e ↦ rw e refl
  | inr e ↦ rw e (omega (arith, length-insert r ss))
]

length-by_age : (q : PurgeOutbox) → length (by_age q) ≡ length q
length-by_age [] = refl
length-by_age (r ∷ rs) = length-insert r (by_age rs) ∙ ap suc (length-by_age rs)

length-purges : (q : List Row) → length (map purge_of q) ≡ length q
length-purges [] = refl
length-purges (r ∷ rs) = ap suc (length-purges rs)

length-due : (now : ℕ) (q : PurgeOutbox) → length (due now q) ≤ length q
length-due now [] = omega arith
length-due now (r ∷ rs) = elim (Bool-cases (leb r.next_attempt_epoch now)) [
  | inl e ↦ rw e (omega (arith, length-due now rs))
  | inr e ↦ rw e (omega (arith, length-due now rs))
]

gone : (p : String) (q : PurgeOutbox) → has_person p (mark_delivered p q) ≡ false
unfolding mark_delivered
gone p [] = refl
gone p (r ∷ rs) = elim (Bool-cases (str_eq r.person_id p)) [
  | inl t ↦ rw t (gone p rs)
  | inr t ↦ rw (t, t) (gone p rs)
]

-- What is handed out at a time is as many purges as are due, up to the limit and never more than
-- there are rows; and a purge that is delivered is out of the outbox, whatever was in it.
pub pending_accounts :
    (limit now : ℕ) (p : String) (q : PurgeOutbox)
    → (length (pending limit now q) ≡ min limit (length (due now q)))
      × (length (pending limit now q) ≤ depth q)
      × (has_person p (mark_delivered p q) ≡ false)
unfolding pending depth
pending_accounts limit now p q =
    let count : length (map purge_of (take limit (by_age (due now q))))
        ≡ min limit (length (due now q)) =
      length-purges (take limit (by_age (due now q)))
      ∙ length-take limit (by_age (due now q))
      ∙ ap (min limit) (length-by_age (due now q)) in
    (count, omega (arith, count, length-due now q), gone p q)
