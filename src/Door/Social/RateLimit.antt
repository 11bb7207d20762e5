-- ===== src/Door/Social/RateLimit.antt =====
-- The limit on public writes (apps/door-api/src/door_api/social/ratelimit.py). The map of deques is an
-- association list in the order of insertion; the clock is an argument.
pub mod Window
use doorboard.Prelude.{
  ℕ, suc, ◌+◌, ◌-◌, ◌*◌, max, String, Bool, true, false, ◌&&◌, List, [], ◌∷◌, ◌++◌, length, ltb,
  leb, str_eq, if◌then◌else◌,
}

abbrev pub Bucket : Type 0
Bucket = List ℕ

pub record RateLimiter : Type 0 where
  pub limit : ℕ
  pub window_s : ℕ
  pub hits : List (String × Bucket)

abbrev pub max_len : ℕ → ℕ
max_len limit = max (limit * 4) 16

abbrev pub bucket_of : String → List (String × Bucket) → Bucket
bucket_of k [] = []
bucket_of k ((j, b) ∷ bs) = if str_eq j k then b else bucket_of k bs

abbrev pub put_bucket : String → Bucket → List (String × Bucket) → List (String × Bucket)
put_bucket k b [] = (k, b) ∷ []
put_bucket k b ((j, c) ∷ bs) =
    let rest = put_bucket k b bs in if str_eq j k then (j, b) ∷ bs else (j, c) ∷ rest

-- `while bucket and bucket[0] < cutoff: bucket.popleft()`
abbrev pub trim : ℕ → Bucket → Bucket
trim cutoff [] = []
trim cutoff (t ∷ ts) = let rest = trim cutoff ts in if ltb t cutoff then rest else t ∷ ts

abbrev pub rest_of : Bucket → Bucket
rest_of [] = []
rest_of (t ∷ ts) = ts

-- `append` to a deque of a maximal length, which loses its oldest entry when it is full.
abbrev pub push : ℕ → ℕ → Bucket → Bucket
push most t b = (if leb most (length b) then rest_of b else b) ++ t ∷ []

-- The test, and the attempt recorded in both cases.
abbrev pub attempt : ℕ → ℕ → Bucket → Bucket × Bool
attempt limit now b = (push (max_len limit) now b, ltb (length b) limit)

abbrev pub try_bucket : ℕ → ℕ → ℕ → Bucket → Bucket × Bool
try_bucket limit window now b = attempt limit now (trim (now - window) b)

unfoldable pub allow : String → ℕ → RateLimiter → RateLimiter × Bool
allow k now l =
    let r = try_bucket l.limit l.window_s now (bucket_of k l.hits) in
    (record l { hits = put_bucket k r.0 l.hits }, r.1)

abbrev pub last_before : ℕ → Bucket → Bool
last_before cutoff [] = true
last_before cutoff (t ∷ []) = ltb t cutoff
last_before cutoff (t ∷ u ∷ us) = last_before cutoff (u ∷ us)

abbrev pub swept : ℕ → List (String × Bucket) → List (String × Bucket)
swept cutoff [] = []
swept cutoff ((k, b) ∷ bs) =
    let rest = swept cutoff bs in if last_before cutoff b then rest else (k, b) ∷ rest

unfoldable pub sweep : ℕ → RateLimiter → RateLimiter × ℕ
sweep now l =
    let kept = swept (now - l.window_s) l.hits in
    (record l { hits = kept }, length l.hits - length kept)

pub record CompositeRateLimiter : Type 0 where
  pub per_ip : RateLimiter
  pub per_session : RateLimiter

unfoldable pub allow_both : String → String → ℕ → CompositeRateLimiter → CompositeRateLimiter × Bool
allow_both ip session now c =
    let i = allow ip now c.per_ip in
    let s = allow session now c.per_session in
    (record { per_ip = i.0; per_session = s.0 }, i.1 && s.1)
