-- ===== src/Esp32/Dedupe/Bound.antt =====
-- What the memory of `_is_duplicate_inbound` accepts, and how large it is
-- (packages/esp32-link/src/doorboard_esp32_link/esp32.py).
use doorboard.Prelude.{
  ℕ, zero, suc, ◌+◌, ◌-◌, ◌≤◌, ◌<◌, max, ◌≡◌, refl, ap, subst, String, false, inl, inr, Bool-cases,
  Option, List, [], ◌∷◌, length, ltb, leb, ◌==◌, ==_iff, arith, All, if◌then◌else◌, not_lt→le,
  leb→le,
}
use doorboard.Esp32.Dedupe.{
  Dedupe, fresh, same_boot, for_boot, has, prune, bounded, is_repeat, accept, is_duplicate_inbound,
}

-- No number occurs twice.
abbrev pub Distinct : List ℕ → Type 0
Distinct [] = Unit
Distinct (n ∷ ns) = (has n ns ≡ false) × Distinct ns

-- Without the entry `n`.
abbrev pub without : ℕ → List ℕ → List ℕ
without n [] = []
without n (m ∷ ms) = let rest = without n ms in if m == n then rest else m ∷ rest

has-without : (k n : ℕ) (ms : List ℕ) → has k ms ≡ false → has k (without n ms) ≡ false
has-without k n [] h = refl
has-without k n (m ∷ ms) h = elim (Bool-cases (m == n)) [
  | inl e ↦ rw e (has-without k n ms (ground arith))
  | inr e ↦
      let here : (m == k) ≡ false = ground arith in rw (e, here) (has-without k n ms (ground arith))
]

without-Distinct : (n : ℕ) (ms : List ℕ) → Distinct ms → Distinct (without n ms)
without-Distinct n [] d = d
without-Distinct n (m ∷ ms) d = elim (Bool-cases (m == n)) [
  | inl e ↦ rw e (without-Distinct n ms d.1)
  | inr e ↦ rw e (has-without m n ms d.0, without-Distinct n ms d.1)
]

without_absent : (n : ℕ) (ms : List ℕ) → has n ms ≡ false → without n ms ≡ ms
without_absent n [] h = refl
without_absent n (m ∷ ms) h =
    let here : (m == n) ≡ false = ground arith in
    rw here (ap (λ r. m ∷ r) (without_absent n ms (ground arith)))

length-without : (n : ℕ) (ms : List ℕ) → Distinct ms → length ms ≤ suc (length (without n ms))
length-without n [] d = omega arith
length-without n (m ∷ ms) d = elim (Bool-cases (m == n)) [
  | inl e ↦
      let same : m ≡ n = (==_iff m n).0 e in
      let gone : without n ms ≡ ms = without_absent n ms (subst (λ k. has k ms ≡ false) same d.0) in
      rw (e, gone) (omega arith)
  | inr e ↦ rw e (omega (arith, length-without n ms d.1))
]

-- Numbers below `lo + w` and from `lo` on.
Within : ℕ → ℕ → List ℕ → Type 0
Within lo w [] = Unit
Within lo w (n ∷ ns) = (lo ≤ n) × (n < lo + w) × Within lo w ns

without-Within : (lo w : ℕ) (ns : List ℕ) → Within lo (suc w) ns → Within lo w (without (lo + w) ns)
unfolding Within
without-Within lo w [] h = h
without-Within lo w (n ∷ ns) h = elim (Bool-cases (n == lo + w)) [
  | inl e ↦ rw e (without-Within lo w ns h.2)
  | inr e ↦
      let below : n < lo + w = ground (arith, h.1) in rw e (h.0, below, without-Within lo w ns h.2)
]

pigeonhole : (lo w : ℕ) (ns : List ℕ) → Distinct ns → Within lo w ns → length ns ≤ w
unfolding Within
pigeonhole lo zero [] d h = omega arith
pigeonhole lo zero (n ∷ ns) d h = absurd (omega (arith, h.0, h.1))
pigeonhole lo (suc w) ns d h = omega (
  arith,
  length-without (lo + w) ns d,
  pigeonhole lo w (without (lo + w) ns) (without-Distinct (lo + w) ns d) (without-Within lo w ns h),
)

module _ (window : ℕ) where
  -- Distinct numbers below `next_seq`, and no more of them than the window.
  record Small (d : Dedupe) : Type 0 where
    distinct : Distinct d.recent_seqs
    below : All (λ n. n < d.next_seq) d.recent_seqs
    short : length d.recent_seqs ≤ window

  has-prune : (next k : ℕ) (ns : List ℕ) → has k ns ≡ false → has k (prune window next ns) ≡ false
  has-prune next k [] h = refl
  has-prune next k (n ∷ ns) h = elim (Bool-cases (leb next (n + window))) [
    | inl e ↦
        let here : (n == k) ≡ false = ground arith in
        rw (e, here) (has-prune next k ns (ground arith))
    | inr e ↦ rw e (has-prune next k ns (ground arith))
  ]

  prune-Distinct : (next : ℕ) (ns : List ℕ) → Distinct ns → Distinct (prune window next ns)
  prune-Distinct next [] d = d
  prune-Distinct next (n ∷ ns) d = elim (Bool-cases (leb next (n + window))) [
    | inl e ↦ rw e (has-prune next n ns d.0, prune-Distinct next ns d.1)
    | inr e ↦ rw e (prune-Distinct next ns d.1)
  ]

  prune-All :
      (next bound : ℕ) (ns : List ℕ)
      → All (λ n. n < bound) ns
      → All (λ n. n < bound) (prune window next ns)
  prune-All next bound [] h = h
  prune-All next bound (n ∷ ns) h = elim (Bool-cases (leb next (n + window))) [
    | inl e ↦ rw e (h.0, prune-All next bound ns h.1)
    | inr e ↦ rw e (prune-All next bound ns h.1)
  ]

  prune-Within :
      (next : ℕ) (ns : List ℕ)
      → All (λ n. n < next) ns
      → Within (next - window) window (prune window next ns)
  unfolding Within
  prune-Within next [] h = tt
  prune-Within next (n ∷ ns) h = elim (Bool-cases (leb next (n + window))) [
    | inl e ↦
        let near : next ≤ n + window = leb→le next (n + window) e in
        rw e (omega (arith, near), omega (arith, h.0), prune-Within next ns h.1)
    | inr e ↦ rw e (prune-Within next ns h.1)
  ]

  bounded-Small :
      (boot : Option String) (next : ℕ) (ns : List ℕ)
      → Distinct ns
      → All (λ n. n < next) ns
      → Small (record { boot_id = boot; next_seq = next; recent_seqs = bounded window next ns })
  bounded-Small boot next ns d h = elim (Bool-cases (ltb window (length ns))) [
    | inl e ↦ rw e (record {
      distinct = prune-Distinct next ns d;
      below = prune-All next next ns h;
      short =
          pigeonhole (next - window) window (prune window next ns) (prune-Distinct next ns d)
            (prune-Within next ns h);
    })
    | inr e ↦ rw e (record { distinct = d; below = h; short = not_lt→le window (length ns) e })
  ]

  raised : (lo hi : ℕ) (ns : List ℕ) → lo ≤ hi → All (λ n. n < lo) ns → All (λ n. n < hi) ns
  raised lo hi [] le h = h
  raised lo hi (n ∷ ns) le h = (omega (arith, h.0), raised lo hi ns le h.1)

  accept-Small : (seq : ℕ) (d : Dedupe) → Small d → Small (accept window seq d).0
  accept-Small seq d s = elim (Bool-cases (is_repeat window seq d)) [
    | inl e ↦ rw e s
    | inr e ↦
        let new : has seq d.recent_seqs ≡ false = ground arith in
        rw e (
          bounded-Small d.boot_id (max d.next_seq (suc seq)) (seq ∷ d.recent_seqs) (new, s.distinct)
            (
              omega arith,
              raised d.next_seq (max d.next_seq (suc seq)) d.recent_seqs (omega arith) s.below,
            ))
  ]

  for_boot-Small : (b : String) (d : Dedupe) → Small d → Small (for_boot b d)
  for_boot-Small b d s = elim (Bool-cases (same_boot b d.boot_id)) [
    | inl e ↦ rw e s
    | inr e ↦ rw e (record { distinct = tt; below = tt; short = omega arith })
  ]

-- The memory after a run of frames.
abbrev pub after : ℕ → List (String × ℕ) → Dedupe → Dedupe
after option [] d = d
after option ((b, s) ∷ fs) d = after option fs (is_duplicate_inbound option b s d).0

after-Small :
    (option : ℕ) (fs : List (String × ℕ)) (d : Dedupe)
    → Small (max 1 option) d
    → Small (max 1 option) (after option fs d)
unfolding is_duplicate_inbound
after-Small option [] d s = s
after-Small option ((b, n) ∷ fs) d s =
    after-Small option fs (is_duplicate_inbound option b n d).0
      (accept-Small (max 1 option) n (for_boot b d) (for_boot-Small (max 1 option) b d s))

-- Whatever frames arrive, the link remembers at most as many recent numbers as the window's size,
-- which is at least 1.
pub is_duplicate_inbound-bounded :
    (option : ℕ) (fs : List (String × ℕ))
    → length (after option fs fresh).recent_seqs ≤ max 1 option
is_duplicate_inbound-bounded option fs =
    (after-Small option fs fresh (record { distinct = tt; below = tt; short = omega arith })).short
