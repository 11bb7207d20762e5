-- ===== src/Esp32/Dedupe/Again.antt =====
-- A number that comes again (`_is_duplicate_inbound` of
-- packages/esp32-link/src/doorboard_esp32_link/esp32.py).
use doorboard.Prelude.{
  ℕ, suc, ◌+◌, ◌≤◌, max, ◌≡◌, refl, ap, ◌∙◌, String, Bool, true, false, ◌||◌, Bool-cases, inl, inr,
  ◌∷◌, ltb, ==_iff, eq_iff, not_lt→le, arith, if-true,
}
use doorboard.Esp32.Dedupe.{
  Dedupe, same_boot, for_boot, has, bounded, is_repeat, accept, is_duplicate_inbound,
}
use doorboard.Esp32.Dedupe.Seen.{has-bounded}

-- A number that was accepted is a repeat afterwards.
accept_again :
    (window seq : ℕ) (d : Dedupe)
    → 1 ≤ window
    → (accept window seq d).1 ≡ false
    → is_repeat window seq (accept window seq d).0 ≡ true
accept_again window seq d one h = elim (Bool-cases (is_repeat window seq d)) [
  | inl e ↦ absurd (cc (rw e at h))
  | inr e ↦ rw e (
      let old : ltb (seq + window) d.next_seq ≡ false = ground arith in
      let near = not_lt→le (seq + window) d.next_seq old in
      let next = max d.next_seq (suc seq) in
      let kept : has seq (bounded window next (seq ∷ d.recent_seqs)) ≡ true =
        has-bounded window next seq (seq ∷ d.recent_seqs) (omega (arith, near, one))
        ∙ ap (λ b. b || has seq d.recent_seqs) ((==_iff seq seq).1 refl) in
      rw kept (or_true (ltb (seq + window) next)))
]
  where
    or_true : (b : Bool) → (b || true) ≡ true
    or_true true = refl
    or_true false = refl

boot_again :
    (window seq : ℕ) (b : String) (d : Dedupe)
    → for_boot b (accept window seq (for_boot b d)).0 ≡ (accept window seq (for_boot b d)).0
boot_again window seq b d =
    known b (accept window seq (for_boot b d)).0 (boots window seq (for_boot b d) (own b d))
  where
    known : (b : String) (d : Dedupe) → same_boot b d.boot_id ≡ true → for_boot b d ≡ d
    known b d h = if-true (same_boot b d.boot_id) d _ h

    own : (b : String) (d : Dedupe) → same_boot b (for_boot b d).boot_id ≡ true
    own b d = elim (Bool-cases (same_boot b d.boot_id)) [
      | inl e ↦ rw (e, e) refl
      | inr e ↦ rw e ((eq_iff b b).1 refl)
    ]

    boots :
        (window seq : ℕ) (d : Dedupe)
        → same_boot b d.boot_id ≡ true
        → same_boot b (accept window seq d).0.boot_id ≡ true
    boots window seq d h = elim (Bool-cases (is_repeat window seq d)) [
      | inl e ↦ rw e h
      | inr e ↦ rw e h
    ]

pub duplicate_again :
    (option : ℕ) (b : String) (seq : ℕ) (d : Dedupe)
    → (is_duplicate_inbound option b seq d).1 ≡ false
    → (is_duplicate_inbound option b seq (is_duplicate_inbound option b seq d).0).1 ≡ true
unfolding is_duplicate_inbound
duplicate_again option b seq d h =
    let w = max 1 option in
    let q = (accept w seq (for_boot b d)).0 in
    ap (λ k. (accept w seq k).1) (boot_again w seq b d)
    ∙ answer w seq q (accept_again w seq (for_boot b d) (omega arith) h)
  where
    answer : (w seq : ℕ) (q : Dedupe) → is_repeat w seq q ≡ true → (accept w seq q).1 ≡ true
    answer w seq q e = rw e refl
