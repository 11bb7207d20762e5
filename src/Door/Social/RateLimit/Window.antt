-- ===== src/Door/Social/RateLimit/Window.antt =====
-- At most so many writes in a window (apps/door-api/src/door_api/social/ratelimit.py).
use doorboard.Prelude.{
  ℕ, suc, ◌+◌, ◌-◌, ◌≤◌, ◌<◌, min, ◌≡◌, refl, ap, ◌∙◌, sym, subst, String, true, false, inl, inr,
  ◌⊎◌, Bool-cases, List, [], ◌∷◌, ◌++◌, length, length-append, All, All-append, ltb, leb, ltb→lt,
  leb→le, str_eq, eq_iff, arith, if◌then◌else◌, if-true,
}
use doorboard.Door.Social.RateLimit.{
  Bucket, RateLimiter, max_len, bucket_of, put_bucket, trim, rest_of, push, allow,
}

-- The attempts of one key at these times: how many were allowed.
abbrev pub allowed : String → List ℕ → RateLimiter → ℕ
allowed k [] l = 0
allowed k (t ∷ ts) l =
    let more = allowed k ts (allow k t l).0 in if (allow k t l).1 then suc more else more

abbrev pub Between : ℕ → ℕ → List ℕ → Type 0
Between lo hi ts = All (λ t. (lo ≤ t) × (t ≤ hi)) ts

-- The bucket ends with the attempts since `lo`: all `n` of them, or as many as it can hold.
record Remembers (most lo n : ℕ) (b : Bucket) : Type 0 where
  old : Bucket
  new : Bucket
  split : b ≡ old ++ new
  recent : All (λ t. lo ≤ t) new
  enough : (n ≤ length new) ⊎ (most ≤ length new)

module _ (lo : ℕ) where
  trim_new :
      (cutoff : ℕ) (new : Bucket) → cutoff ≤ lo → All (λ t. lo ≤ t) new → trim cutoff new ≡ new
  trim_new cutoff [] c h = refl
  trim_new cutoff (t ∷ ts) c h =
      let late : ltb t cutoff ≡ false = ground (arith, c, h.0) in rw late refl

  trim_split :
      (cutoff : ℕ) (old new : Bucket)
      → cutoff ≤ lo
      → All (λ t. lo ≤ t) new
      → (kept : Bucket) × (trim cutoff (old ++ new) ≡ kept ++ new)
  trim_split cutoff [] new c h = ([], trim_new cutoff new c h)
  trim_split cutoff (t ∷ ts) new c h = elim (Bool-cases (ltb t cutoff)) [
    | inl e ↦ rw e (trim_split cutoff ts new c h)
    | inr e ↦ rw e (t ∷ ts, refl)
  ]

  trim-Remembers :
      (most n cutoff : ℕ) (b : Bucket)
      → cutoff ≤ lo
      → Remembers most lo n b
      → Remembers most lo n (trim cutoff b)
  trim-Remembers most n cutoff b c r =
      let cut = trim_split cutoff r.old r.new c r.recent in
      record {
        old = cut.0;
        new = r.new;
        split = ap (trim cutoff) r.split ∙ cut.1;
        recent = r.recent;
        enough = r.enough;
      }

  -- One more attempt at the end.
  longer :
      (most n now : ℕ) (old new : Bucket)
      → lo ≤ now
      → All (λ t. lo ≤ t) new
      → (n ≤ length new) ⊎ (most ≤ length new)
      → Remembers most lo (suc n) ((old ++ new) ++ now ∷ [])
  longer most n now old new h recent enough = record {
    old = old;
    new = new ++ now ∷ [];
    split = append_assoc old new;
    recent = All-append (λ t. lo ≤ t) new (now ∷ []) recent (h, tt);
    enough = elim enough [
      | inl le ↦ inl (omega (arith, le, length-append new (now ∷ [])))
      | inr le ↦ inr (omega (arith, le, length-append new (now ∷ [])))
    ];
  }
    where
      append_assoc : (xs ys : Bucket) → (xs ++ ys) ++ now ∷ [] ≡ xs ++ (ys ++ now ∷ [])
      append_assoc [] ys = refl
      append_assoc (x ∷ xs) ys = ap (λ r. x ∷ r) (append_assoc xs ys)

  -- A full bucket that loses its oldest attempt.
  full :
      (most n now : ℕ) (old new : Bucket)
      → 1 ≤ most
      → lo ≤ now
      → All (λ t. lo ≤ t) new
      → (n ≤ length new) ⊎ (most ≤ length new)
      → most ≤ length (old ++ new)
      → Remembers most lo (suc n) (rest_of (old ++ new) ++ now ∷ [])
  full most n now [] [] one h recent enough le = absurd (omega (arith, one, le))
  full most n now [] (t ∷ ts) one h recent enough le = record {
    old = [];
    new = ts ++ now ∷ [];
    split = refl;
    recent = All-append (λ t. lo ≤ t) ts (now ∷ []) recent.1 (h, tt);
    enough = inr (omega (arith, le, length-append ts (now ∷ [])));
  }
  full most n now (o ∷ os) new one h recent enough le = longer most n now os new h recent enough

  push-Remembers :
      (most n now : ℕ) (b : Bucket)
      → 1 ≤ most
      → lo ≤ now
      → Remembers most lo n b
      → Remembers most lo (suc n) (push most now b)
  push-Remembers most n now b one h r = elim (Bool-cases (leb most (length b))) [
    | inl e ↦ rw e (
        subst (λ c. Remembers most lo (suc n) (rest_of c ++ now ∷ [])) (sym r.split)
          (full most n now r.old r.new one h r.recent r.enough
            (subst (λ c. most ≤ length c) r.split (leb→le most (length b) e))))
    | inr e ↦ rw e (
        subst (λ c. Remembers most lo (suc n) (c ++ now ∷ [])) (sym r.split)
          (longer most n now r.old r.new h r.recent r.enough))
  ]

  -- Where an attempt is allowed, fewer were made since `lo` than the limit.
  room :
      (limit n : ℕ) (b : Bucket)
      → Remembers (max_len limit) lo n b
      → ltb (length b) limit ≡ true
      → n < limit
  room limit n b r h =
      let whole : length b ≡ length r.old + length r.new =
        ap length r.split ∙ length-append r.old r.new in
      let lt = ltb→lt (length b) limit h in
      elim r.enough [
        | inl le ↦ omega (arith, le, whole, lt)
        | inr le ↦ absurd (omega (arith, le, whole, lt))
      ]

bucket_of-put_bucket :
    (k : String) (b : Bucket) (hits : List (String × Bucket))
    → bucket_of k (put_bucket k b hits) ≡ b
bucket_of-put_bucket k b [] = if-true (str_eq k k) b [] ((eq_iff k k).1 refl)
bucket_of-put_bucket k b ((j, c) ∷ bs) = elim (Bool-cases (str_eq j k)) [
  | inl e ↦ rw e (rw e refl)
  | inr e ↦ rw e (rw e (bucket_of-put_bucket k b bs))
]

allowed_after :
    (k : String) (lo hi n : ℕ) (ts : List ℕ) (l : RateLimiter)
    → hi ≤ lo + l.window_s
    → Between lo hi ts
    → Remembers (max_len l.limit) lo n (bucket_of k l.hits)
    → allowed k ts l + min n l.limit ≤ l.limit
unfolding allow
allowed_after k lo hi n [] l narrow h r = omega arith
allowed_after k lo hi n (t ∷ ts) l narrow h r =
    let b = trim (t - l.window_s) (bucket_of k l.hits) in
    let trimmed =
      trim-Remembers lo (max_len l.limit) n (t - l.window_s) (bucket_of k l.hits)
        (omega (arith, narrow, h.0.1)) r in
    let most = max_len l.limit in
    let pushed : Remembers most lo (suc n) (push most t b) =
      push-Remembers lo most n t b (omega arith) h.0.0 trimmed in
    let after = allowed_after k lo hi (suc n) ts (allow k t l).0 narrow h.1 (
      subst (Remembers most lo (suc n)) (sym (bucket_of-put_bucket k (push most t b) l.hits))
        pushed) in
    elim (Bool-cases (ltb (length b) l.limit)) [
      | inl e ↦ rw e (omega (arith, after, room lo l.limit n b trimmed e))
      | inr e ↦ rw e (omega (arith, after))
    ]

-- However often a key tries, and whatever it tried before: of its attempts at times that lie within
-- one window, no more are allowed than the limit. This holds although the deque forgets attempts in a
-- flood.
pub allow-limited :
    (k : String) (lo hi : ℕ) (ts : List ℕ) (l : RateLimiter)
    → hi ≤ lo + l.window_s
    → Between lo hi ts
    → allowed k ts l ≤ l.limit
allow-limited k lo hi ts l narrow h = omega (
  arith,
  allowed_after k lo hi 0 ts l narrow h (record {
    old = bucket_of k l.hits;
    new = [];
    split = sym (append_nil (bucket_of k l.hits));
    recent = tt;
    enough = inl (omega arith);
  }),
)
  where
    append_nil : (xs : Bucket) → xs ++ [] ≡ xs
    append_nil [] = refl
    append_nil (x ∷ xs) = ap (λ r. x ∷ r) (append_nil xs)
