-- ===== src/Door/Outbox/Laws.antt =====
-- What an outbox keeps (apps/door-api/src/door_api/persistence.py).
use doorboard.Prelude.{
  ℕ, ◌+◌, ◌≤◌, ◌<◌, ◌≡◌, inl, inr, refl, String, true, false, none, some, List, [], ◌∷◌, ◌++◌,
  arith, drop, length-append, length-drop, Bool-cases,
}
use doorboard.Door.Outbox.{
  Row, Outbox, Item, has_id, delete, reschedule, next_of, excess, depth, enqueue_locked, next_event,
  complete_event, retry_event,
}
use doorboard.Door.Outbox.Rows.{
  Unique, has_id-append, has_id-drop, Unique-drop, Unique-append_new, Unique-delete, length-delete,
  delete_absent, Unique-reschedule, length-reschedule,
}

-- The primary key, and the bound that `SessionStore.__init__` makes positive.
pub record IsValid {ℓ} {E : Type ℓ} (o : Outbox E) : Type 0 where
  pub unique : Unique o.rows
  pub bounded : depth o ≤ o.max_rows
  pub positive : 0 < o.max_rows

-- The operations that change a table.
pub data Op {ℓ} (E : Type ℓ) : Type ℓ where
  enqueue : ℕ → E → ℕ → Op E
  complete : ℕ → Op E
  retry : ℕ → ℕ → ℕ → String → Op E

abbrev pub apply {ℓ} : {E : Type ℓ} → Op E → Outbox E → Outbox E
apply (enqueue k e now) o = (enqueue_locked k e now o).0
apply (complete k) o = complete_event k o
apply (retry k n at e) o = retry_event k n at e o

abbrev pub run_ops {ℓ} : {E : Type ℓ} → List (Op E) → Outbox E → Outbox E
run_ops [] o = o
run_ops (op ∷ ops) o = run_ops ops (apply op o)

module _ {ℓ} {E : Type ℓ} where
  pub enqueue-IsValid :
      (k now : ℕ) (e : E) (o : Outbox E) → IsValid o → IsValid (enqueue_locked k e now o).0
  unfolding enqueue_locked
  enqueue-IsValid k now e o v = elim (Bool-cases (has_id k o.rows)) [
    | inl old ↦ rw old v
    | inr new ↦ rw new (record {
      unique =
          Unique-append_new (drop (excess o) o.rows) _ (Unique-drop (excess o) o.rows v.unique)
            (has_id-drop (excess o) k o.rows new);
      bounded = omega (arith, length-append {ℓ}, length-drop {ℓ}, v);
      positive = v.positive;
    })
  ]

  apply-IsValid : (op : Op E) (o : Outbox E) → IsValid o → IsValid (apply op o)
  unfolding complete_event retry_event
  apply-IsValid (enqueue k e now) o v = enqueue-IsValid k now e o v
  apply-IsValid (complete k) o v = record {
    unique = Unique-delete k o.rows v.unique;
    bounded = omega (arith, length-delete k o.rows, v);
    positive = v.positive;
  }
  apply-IsValid (retry k n at e) o v = record {
    unique = Unique-reschedule k n at e o.rows v.unique;
    bounded = omega (arith, length-reschedule k n at e o.rows, v);
    positive = v.positive;
  }

  -- Whatever is enqueued, completed and retried, in whatever order, a table never holds more rows
  -- than its bound and never holds two rows of one event.
  pub run_ops-IsValid : (ops : List (Op E)) (o : Outbox E) → IsValid o → IsValid (run_ops ops o)
  run_ops-IsValid [] o v = v
  run_ops-IsValid (op ∷ ops) o v = run_ops-IsValid ops (apply op o) (apply-IsValid op o v)

  pub enqueue_dropped :
      (k now : ℕ) (e : E) (o : Outbox E)
      → (enqueue_locked k e now o).0.dropped_total ≡ o.dropped_total + (enqueue_locked k e now o).1
  unfolding enqueue_locked
  enqueue_dropped k now e o = elim (Bool-cases (has_id k o.rows)) [
    | inl old ↦ rw old (omega arith)
    | inr new ↦ rw new refl
  ]

  -- A new event that is enqueued in a valid table stands at its end with its content and no attempts,
  -- behind the rows that were kept, in their order, and the table has its id.
  pub enqueue_keeps_order :
      (k now : ℕ) (e : E) (o : Outbox E)
      → IsValid o
      → has_id k o.rows ≡ false
      → (r : Row E) × (r.event_id ≡ k)
        × (r.event ≡ e)
        × (r.attempts ≡ 0)
        × ((enqueue_locked k e now o).0.rows ≡ drop (excess o) o.rows ++ r ∷ [])
        × (has_id k (enqueue_locked k e now o).0.rows ≡ true)
  unfolding enqueue_locked
  enqueue_keeps_order k now e o v h =
      rw h (_, refl, refl, refl, refl, rw has_id-append (ground arith))

  next_of-head :
      (rows : List (Row E)) (now : ℕ) {item : Item E}
      → Unique rows
      → next_of rows now ≡ some item
      → (r : Row E) × (r.event_id ≡ item.event_id)
        × (r.event ≡ item.event)
        × (r.next_attempt_epoch ≤ now)
        × (rows ≡ r ∷ delete item.event_id rows)
  unfolding next_of
  next_of-head [] now u h = cc
  next_of-head (r ∷ rs) now {item} u h =
      (r, ground arith, ground arith, ground arith, ground (arith, delete_absent item.event_id rs))

  -- Delivery is in order and removes one row: what `next_event` hands out is the oldest row, which
  -- is due, and completing it leaves the rest of the table as it stands.
  pub complete-next :
      (o : Outbox E) (now : ℕ) {item : Item E}
      → IsValid o
      → next_event o now ≡ some item
      → (r : Row E) × (r.event_id ≡ item.event_id)
        × (r.event ≡ item.event)
        × (r.next_attempt_epoch ≤ now)
        × (o.rows ≡ r ∷ (complete_event item.event_id o).rows)
  unfolding next_event complete_event
  complete-next o now v h = next_of-head o.rows now v.unique h

  -- A failed delivery holds the line: when the head of the table is rescheduled, nothing behind it
  -- is handed out before its new time.
  pub retry-next :
      (o : Outbox E) (n at now later : ℕ) (error : String) {item : Item E}
      → next_event o now ≡ some item
      → later < at
      → next_event (retry_event item.event_id n at error o) later ≡ none
  unfolding next_event retry_event
  retry-next o n at now later error {item} h l = go o.rows h
    where
      go :
          (rows : List (Row E))
          → next_of rows now ≡ some item
          → next_of (reschedule item.event_id n at error rows) later ≡ none
      go [] e = cc
      go (r ∷ rs) e = ground arith
