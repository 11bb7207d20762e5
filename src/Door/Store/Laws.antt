-- ===== src/Door/Store/Laws.antt =====
-- What the transactions of the store keep (apps/door-api/src/door_api/persistence.py).
use doorboard.Prelude.{ℕ, ◌+◌, ◌≡◌, refl, List, [], ◌∷◌, arith}
use doorboard.Door.Outbox.{Outbox, enqueue_locked}
use doorboard.Door.Outbox.Laws.{IsValid, enqueue-IsValid, enqueue_dropped}
use doorboard.Door.Store.{SessionStore, Keyed, enqueue_all, deliver}

module _ {ℓ} {E : Type ℓ} where
  enqueue_all-IsValid :
      (es : List (Keyed E)) (now : ℕ) (o : Outbox E) → IsValid o → IsValid (enqueue_all es now o).0
  unfolding enqueue_all
  enqueue_all-IsValid [] now o v = v
  enqueue_all-IsValid (e ∷ es) now o v =
      enqueue_all-IsValid es now (enqueue_locked e.event_id e.event now o).0
        (enqueue-IsValid e.event_id now e.event o v)

  enqueue_all_dropped :
      (es : List (Keyed E)) (now : ℕ) (o : Outbox E)
      → let (o', n) = enqueue_all es now o in o'.dropped_total ≡ o.dropped_total + n
  unfolding enqueue_all
  enqueue_all_dropped [] now o = omega arith
  enqueue_all_dropped (e ∷ es) now o =
      let o' = (enqueue_locked e.event_id e.event now o).0 in
      omega (arith, enqueue_dropped e.event_id now e.event o, enqueue_all_dropped es now o')

  pub deliver-IsValid :
      (m : Keyed E) (es : List (Keyed E)) (now : ℕ) (s : SessionStore E)
      → IsValid s.media
      → IsValid s.sync
      → let s' = (deliver m es now s).0 in IsValid s'.media × IsValid s'.sync
  unfolding deliver
  deliver-IsValid m es now s vm vs =
      (enqueue-IsValid m.event_id now m.event s.media vm, enqueue_all-IsValid es now s.sync vs)

  -- A delivery leaves the session's row alone, and what it reports as dropped is what the two
  -- counters grew by.
  pub deliver_reports :
      (m : Keyed E) (es : List (Keyed E)) (now : ℕ) (s : SessionStore E)
      → ((deliver m es now s).0.row ≡ s.row)
        × ((deliver m es now s).0.media.dropped_total
            ≡ s.media.dropped_total + (deliver m es now s).1)
        × ((deliver m es now s).0.sync.dropped_total
            ≡ s.sync.dropped_total + (deliver m es now s).2)
  unfolding deliver
  deliver_reports m es now s =
      (refl, enqueue_dropped m.event_id now m.event s.media, enqueue_all_dropped es now s.sync)
