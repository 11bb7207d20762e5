-- ===== src/Sync/World.antt =====
-- What a run of the sync engine acts on (apps/door-sync/src/door_sync/engine.py): the queue on the
-- disk, the effects outside, and the instant at which the process is killed.
use doorboard.Prelude.{ℕ, zero, suc, ◌+◌, String, List, ◌∷◌}
use doorboard.Sync.Queue.{UploadQueue}

-- What the world outside sees, by the item that it is about.
pub data Effect : Type 0 where
  -- A copy under a key of the archive, read back with this checksum.
  archived : (item : ℕ) (key sha : String) → Effect
  -- `POST /internal/sync_completed` has arrived at door-media, which may now delete the clip.
  notified : (item recording : ℕ) (sha : String) (attempts : ℕ) → Effect
  ingested : (item : ℕ) (payload : String) → Effect
  purged : (item : ℕ) (person : String) → Effect
  upload_queued : (item recording : ℕ) → Effect
  upload_completed : (item : ℕ) (sha : String) (attempts : ℕ) → Effect
  upload_failed : (item attempts retry_at : ℕ) (error_class : String) → Effect

-- `TransientError`, `PermanentError`, and any other exception by its class.
pub data Error : Type 0 where
  transient_error permanent_error : (message : String) → Error
  other_error : (error_class message : String) → Error

-- How a stretch of code ends; `killed` is the end of the process, which no code can catch.
pub data Outcome {ℓ} (A : Type ℓ) : Type ℓ where
  returned : A → Outcome A
  raised : Error → Outcome A
  killed : Outcome A

-- `log` has the latest effect first. `left` counts the effects and the commits that the process has
-- before it is killed, and `draws` the answers that were taken from the environment.
pub record World : Type 0 where
  pub queue : UploadQueue
  pub log : List Effect
  pub left : ℕ
  pub draws : ℕ

abbrev pub Action : Type 0 → Type 0
Action A = World → World × Outcome A

-- What follows a stretch of code that has returned.
abbrev pub after : {A B : Type 0} → World × Outcome A → (A → Action B) → World × Outcome B
after (w, returned a) f = f a w
after (w, raised e) f = (w, raised e)
after (w, killed) f = (w, killed)

infixl 5 ◌>>=◌ ◌>>◌
abbrev pub ◌>>=◌ : {A B : Type 0} → Action A → (A → Action B) → Action B
◌>>=◌ m f w = after (m w) f

abbrev pub ◌>>◌ : {B : Type 0} → Action (Unit {0}) → Action B → Action B
m >> k = m >>= λ _. k

abbrev pub give : {A : Type 0} → A → Action A
give a w = (w, returned a)

abbrev pub fail_with : {A : Type 0} → Error → Action A
fail_with e w = (w, raised e)

-- `try: m except: h`
abbrev pub handled : {A : Type 0} → (Error → Action A) → World × Outcome A → World × Outcome A
handled h (w, returned a) = (w, returned a)
handled h (w, raised e) = h e w
handled h (w, killed) = (w, killed)

abbrev pub catching : {A : Type 0} → (Error → Action A) → Action A → Action A
catching h m w = handled h (m w)

-- A step that the process makes if it lives.
abbrev pub spend : {A : Type 0} → ℕ → World → (ℕ → World) → A → World × Outcome A
spend zero w next a = (w, killed)
spend (suc n) w next a = (next n, returned a)

unfoldable pub effect : Effect → Action (Unit {0})
effect e w = spend w.left w (λ n. record w { log = e ∷ w.log; left = n }) tt

-- A committed transaction.
unfoldable pub commit : {A : Type 0} → (UploadQueue → UploadQueue × A) → Action A
commit f w = spend w.left w (λ n. record w { queue = (f w.queue).0; left = n }) (f w.queue).1

unfoldable pub read : {A : Type 0} → (UploadQueue → A) → Action A
read f w = (w, returned (f w.queue))

-- The next answer of the environment.
unfoldable pub draw : {A : Type 0} → (ℕ → A) → Action A
draw env w = (record w { draws = w.draws + 1 }, returned (env w.draws))

-- An entry of a log.
pub data Occurs (e : Effect) : List Effect → Type 0 where
  here : {es : List Effect} → Occurs e (e ∷ es)
  there : {d : Effect} {es : List Effect} → Occurs e es → Occurs e (d ∷ es)
