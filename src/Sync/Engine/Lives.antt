-- ===== src/Sync/Engine/Lives.antt =====
-- Effects and commits of a process that lives, and the upload that meets no obstacle
-- (apps/door-sync/src/door_sync/engine.py and targets.py).
use doorboard.Prelude.{
  ℕ, zero, suc, ◌≡◌, refl, sym, ap, ◌∙◌, true, false, not, inl, inr, Bool-cases, some,
  some-injective, [], ◌∷◌, String, arith, str_eq, ◌==◌, if-true, if-false,
}
use doorboard.Sync.Queue.{QueueItem, UploadQueue, get, update}
use doorboard.Sync.Queue.Rows.{Keeps}
use doorboard.Sync.World.{Effect, archived, returned, World, Action, spend, effect, commit}
use doorboard.Sync.Archive.{Attempt, Copy, copied, verify_copy, upload_and_verify}

get-here :
    (k : ℕ) (i : QueueItem) (is : UploadQueue) → (i.item_id == k) ≡ true → get k (i ∷ is) ≡ some i
get-here k i is h = rw h refl

get-there :
    (k : ℕ) (i : QueueItem) (is : UploadQueue)
    → (i.item_id == k) ≡ false
    → get k (i ∷ is) ≡ get k is
get-there k i is h = rw h refl

pub get-update_same :
    (k : ℕ) (f : QueueItem → QueueItem) (q : UploadQueue) {i : QueueItem}
    → Keeps f
    → get k q ≡ some i
    → get k (update k f q) ≡ some (f i)
get-update_same k f [] h e = cc
get-update_same k f (r ∷ rs) {i} h e = elim (Bool-cases (r.item_id == k)) [
  | inl t ↦
      ap (λ x. get k (x ∷ update k f rs)) (if-true (r.item_id == k) (f r) r t)
      ∙ get-here k (f r) (update k f rs) (rw (h.id r) t)
      ∙ ap (λ x. some (f x)) (some-injective r i (sym (get-here k r rs t) ∙ e))
  | inr t ↦
      ap (λ x. get k (x ∷ update k f rs)) (if-false (r.item_id == k) (f r) r t)
      ∙ get-there k r (update k f rs) t
      ∙ get-update_same k f rs h (sym (get-there k r rs t) ∙ e)
]

spend-suc :
    {A : Type 0} (n k : ℕ) (w : World) (next : ℕ → World) (a : A)
    → n ≡ suc k
    → spend n w next a ≡ (next k, returned a)
spend-suc zero k w next a h = absurd (omega (arith, h))
spend-suc (suc n) k w next a h =
    let same : n ≡ k = omega (arith, h) in ap (λ x. (next x, returned a)) same

pub effect-lives :
    (e : Effect) (w : World) (n : ℕ)
    → w.left ≡ suc n
    → effect e w ≡ (record w { log = e ∷ w.log; left = n }, returned tt)
unfolding effect
effect-lives e w n h = spend-suc w.left n w _ tt h

pub commit-lives :
    {A : Type 0} (f : UploadQueue → UploadQueue × A) (w : World) (n : ℕ)
    → w.left ≡ suc n
    → commit f w ≡ (record w { queue = (f w.queue).0; left = n }, returned (f w.queue).1)
unfolding commit
commit-lives f w n h = spend-suc w.left n w _ (f w.queue).1 h

archive-eq :
    (c : Copy) (read_back : String) (item : ℕ) (key sha : String) (w : World) (n : ℕ)
    → c ≡ copied
    → str_eq read_back sha ≡ true
    → w.left ≡ suc n
    → verify_copy c read_back item key sha w
      ≡ (record w { log = archived item key sha ∷ w.log; left = n }, returned sha)
archive-eq c read_back item key sha w n e h l =
    rw (e, h, effect-lives (archived item key sha) w n l) refl

pub upload-eq :
    (a : Attempt) (item : ℕ) (key sha : String) (w : World) (n : ℕ)
    → a.exists_for_upload ≡ true
    → a.mounted ≡ true
    → a.copy ≡ copied
    → str_eq a.read_back sha ≡ true
    → w.left ≡ suc n
    → upload_and_verify a item key sha w
      ≡ (record w { log = archived item key sha ∷ w.log; left = n }, returned sha)
unfolding upload_and_verify
upload-eq a item key sha w n x m c r l =
    ap (λ (b : Action String). b w) (if-false (not a.exists_for_upload) _ _ (ap not x))
    ∙ ap (λ (b : Action String). b w) (if-false (not a.mounted) _ _ (ap not m))
    ∙ archive-eq a.copy a.read_back item key sha w n c r l
