-- ===== src/Sync/Engine/Safety.antt =====
-- What holds of a run of the sync engine at every instant
-- (apps/door-sync/src/door_sync/engine.py).
use doorboard.Prelude.{
  ℕ, ◌≡◌, Bool, true, false, ◌&&◌, Option, none, some, List, [], ◌∷◌, String, All, if◌then◌else◌,
}
use doorboard.Sync.Queue.{QueueItem, is_completed, is_media, is_clip}
use doorboard.Sync.Queue.Rows.{When, Unique, Matches}
use doorboard.Sync.World.{
  Error, handled, Effect, archived, notified, Outcome, returned, raised, killed, World, Action,
  after, Occurs,
}

-- The checksum that was declared, if one was, is this one.
abbrev pub Declared : Option String → String → Type 0
Declared none sha = Unit
Declared (some e) sha = e ≡ sha

-- A row with a verified checksum has a copy in the archive with it; a clip or thumbnail without one
-- is not completed.
abbrev pub VerifiedAs : List Effect → QueueItem → Option String → Type 0
VerifiedAs log i none = (is_completed i.status && is_media i.kind) ≡ false
VerifiedAs log i (some sha) =
    Occurs (archived i.item_id i.dest_key sha) log × Declared i.expected_sha256 sha

abbrev pub Verified : List Effect → QueueItem → Type 0
Verified log i = VerifiedAs log i i.verified_sha256

-- door-media has been told of a licensed clip.
abbrev pub Told : List Effect → QueueItem → Type 0
Told log i = When (is_clip i.kind && i.licensed) (
    (recording : ℕ) × (sha : String) × (attempts : ℕ) × Occurs
      (notified i.item_id recording sha attempts) log)

-- door-media is told of an item only after a copy of the item, read back with the checksum, is in
-- the archive.
abbrev pub Founded : Effect → List Effect → Type 0
Founded (notified item recording sha attempts) es =
    (key : String) × Occurs (archived item key sha) es
Founded _ es = Unit

abbrev pub AllFounded : List Effect → Type 0
AllFounded [] = Unit
AllFounded (e ∷ es) = Founded e es × AllFounded es

pub record IsSafe (w : World) : Type 0 where
  pub unique : Unique w.queue
  pub verified : All (Verified w.log) w.queue
  pub told : All (Told w.log) w.queue
  pub founded : AllFounded w.log

-- A later world has what the earlier one had.
pub record Later (w w' : World) : Type 0 where
  pub occurs : (e : Effect) → Occurs e w.log → Occurs e w'.log
  pub matches : (i : QueueItem) → Matches w.queue i → Matches w'.queue i

abbrev pub Result : {A : Type 0} → (A → World → Type 0) → World × Outcome A → Type 0
Result Q (w, returned a) = Q a w
Result Q (w, raised e) = Unit
Result Q (w, killed) = Unit

-- Wherever the code stops, the world is safe; if it returns, something more holds.
pub record Runs {A : Type 0} (w : World) (x : World × Outcome A) (Q : A → World → Type 0)
    : Type 0 where
  pub safe : IsSafe x.0
  pub later : Later w x.0
  pub result : Result Q x

pub Later-refl : (w : World) → Later w w
Later-refl w = record { occurs = λ e o. o; matches = λ i m. m }

pub Later-trans : (u v w : World) → Later u v → Later v w → Later u w
Later-trans u v w p q = record {
  occurs = λ e o. q.occurs e (p.occurs e o);
  matches = λ i m. q.matches i (p.matches i m);
}

module _ {A : Type 0} where
  pub gives :
      (w : World) (a : A) (Q : A → World → Type 0) → IsSafe w → Q a w → Runs w (w, returned a) Q
  gives w a Q s q = record { safe = s; later = Later-refl w; result = q }

  pub raises : (w : World) (e : _) (Q : A → World → Type 0) → IsSafe w → Runs w (w, raised e) Q
  raises w e Q s = record { safe = s; later = Later-refl w; result = tt }

  weaken :
      (u v : World) (x : World × Outcome A) (Q : A → World → Type 0)
      → Later u v
      → Runs v x Q
      → Runs u x Q
  weaken u v x Q l r = record {
    safe = r.safe;
    later = Later-trans u v x.0 l r.later;
    result = r.result;
  }

module _ {A B : Type 0} (w : World) (Q : A → World → Type 0) (f : A → Action B)
    (R : B → World → Type 0) where
  -- One stretch of code after the other.
  pub Runs-after :
      (x : World × Outcome A)
      → Runs w x Q
      → ((a : A) (w' : World) → IsSafe w' → Later w w' → Q a w' → Runs w' (f a w') R)
      → Runs w (after x f) R
  Runs-after (w', returned a) r next =
      weaken w w' (f a w') R r.later (next a w' r.safe r.later r.result)
  Runs-after (w', raised e) r next = record { safe = r.safe; later = r.later; result = tt }
  Runs-after (w', killed) r next = record { safe = r.safe; later = r.later; result = tt }

-- The postcondition alone.
abbrev pub Nothing : {A : Type 0} → A → World → Type 0
Nothing a w = Unit

Result-Nothing : {A : Type 0} (x : World × Outcome A) → Result Nothing x
Result-Nothing (w, returned a) = tt
Result-Nothing (w, raised e) = tt
Result-Nothing (w, killed) = tt

pub forget :
    {A : Type 0} {w : World} {x : World × Outcome A} {Q : A → World → Type 0}
    → Runs w x Q
    → Runs w x Nothing
forget {x} r = record { safe = r.safe; later = r.later; result = Result-Nothing x }

-- A handler that runs after whatever was raised.
pub Runs-handled :
    {A : Type 0} (w : World) (h : Error → Action A) (x : World × Outcome A)
    → Runs w x Nothing
    → ((e : Error) (w' : World) → IsSafe w' → Later w w' → Runs w' (h e w') Nothing)
    → Runs w (handled h x) Nothing
Runs-handled w h (w', returned a) r next = r
Runs-handled w h (w', raised e) r next =
    weaken w w' (h e w') Nothing r.later (next e w' r.safe r.later)
Runs-handled w h (w', killed) r next = r

pub Runs-if :
    {A : Type 0} (b : Bool) (x y : Action A) (w : World) (Q : A → World → Type 0)
    → Runs w (x w) Q
    → Runs w (y w) Q
    → Runs w ((if b then x else y) w) Q
Runs-if true x y w Q p q = p
Runs-if false x y w Q p q = q
