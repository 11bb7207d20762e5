-- ===== src/Esp32/Dedupe/Seen.antt =====
-- The bounded memory of `_is_duplicate_inbound` against one that forgets nothing
-- (packages/esp32-link/src/doorboard_esp32_link/esp32.py).
use doorboard.Prelude.{
  ℕ, suc, ◌+◌, ◌≤◌, max, ◌≡◌, refl, ap, ◌∙◌, sym, String, Bool, true, false, ◌||◌, inl, inr,
  Bool-cases, Option, none, some, List, [], ◌∷◌, length, ltb, leb, ◌==◌, arith, not_lt→le,
  if◌then◌else◌,
}
use doorboard.Esp32.Dedupe.{
  Dedupe, fresh, same_boot, for_boot, has, prune, bounded, is_repeat, remember, accept,
  is_duplicate_inbound,
}

-- A receiver that remembers every number it accepted of this boot.
pub record Memory : Type 0 where
  pub boot : Option String
  pub seen : List ℕ

abbrev pub no_memory : Memory
no_memory = record { boot = none; seen = [] }

-- The number after the highest.
abbrev pub next_after : List ℕ → ℕ
next_after [] = 0
next_after (s ∷ ss) = max (next_after ss) (suc s)

abbrev pub of_boot : String → Memory → Memory
of_boot b m = if same_boot b m.boot then m else record { boot = some b; seen = [] }

-- A frame is a repeat when it is further behind than the window, or was accepted before.
abbrev pub seen_before : ℕ → ℕ → Memory → Bool
seen_before window seq m = ltb (seq + window) (next_after m.seen) || has seq m.seen

abbrev pub add : ℕ → Memory → Memory
add seq m = record m { seen = seq ∷ m.seen }

abbrev pub recall : ℕ → ℕ → Memory → Memory × Bool
recall window seq m = if seen_before window seq m then (m, true) else (add seq m, false)

abbrev pub remembers : ℕ → String → ℕ → Memory → Memory × Bool
remembers option boot seq m = recall (max 1 option) seq (of_boot boot m)

-- The answers to the frames of a run, each with the boot and the number of its sender.
abbrev pub answers : ℕ → List (String × ℕ) → Dedupe → List Bool
answers option [] d = []
answers option ((b, s) ∷ fs) d =
    (is_duplicate_inbound option b s d).1 ∷ answers option fs (is_duplicate_inbound option b s d).0

abbrev pub ideal_answers : ℕ → List (String × ℕ) → Memory → List Bool
ideal_answers option [] m = []
ideal_answers option ((b, s) ∷ fs) m =
    (remembers option b s m).1 ∷ ideal_answers option fs (remembers option b s m).0

-- The two agree on the boot, the highest number, and on every number that is not too old.
pub record Tracks (window : ℕ) (d : Dedupe) (m : Memory) : Type 0 where
  pub boot : d.boot_id ≡ m.boot
  pub next : d.next_seq ≡ next_after m.seen
  pub agree : (n : ℕ) → d.next_seq ≤ n + window → has n d.recent_seqs ≡ has n m.seen

has-prune :
    (window next n : ℕ) (ms : List ℕ) → next ≤ n + window → has n (prune window next ms) ≡ has n ms
has-prune window next n [] h = refl
has-prune window next n (m ∷ ms) h = elim (Bool-cases (leb next (m + window))) [
  | inl e ↦ rw (e, has-prune window next n ms h) refl
  | inr e ↦
      let differs : (m == n) ≡ false = ground arith in
      rw (e, has-prune window next n ms h, differs) refl
]

pub has-bounded :
    (window next n : ℕ) (ms : List ℕ)
    → next ≤ n + window
    → has n (bounded window next ms) ≡ has n ms
has-bounded window next n ms h = elim (Bool-cases (ltb window (length ms))) [
  | inl e ↦ rw e (has-prune window next n ms h)
  | inr e ↦ rw e refl
]

for_boot-Tracks :
    (window : ℕ) (b : String) (d : Dedupe) (m : Memory)
    → Tracks window d m
    → Tracks window (for_boot b d) (of_boot b m)
for_boot-Tracks window b d m t = elim (Bool-cases (same_boot b m.boot)) [
  | inl e ↦ let e' : same_boot b d.boot_id ≡ true = ap (same_boot b) t.boot ∙ e in rw (e, e') t
  | inr e ↦
      let e' : same_boot b d.boot_id ≡ false = ap (same_boot b) t.boot ∙ e in
      rw (e, e') (record { boot = refl; next = refl; agree = λ n h. refl })
]

remember-Tracks :
    (window seq : ℕ) (d : Dedupe) (m : Memory)
    → Tracks window d m
    → Tracks window (remember window seq d) (add seq m)
remember-Tracks window seq d m t = record {
  boot = t.boot;
  next = ap (λ k. max k (suc seq)) t.next;
  agree = λ n h.
      has-bounded window (max d.next_seq (suc seq)) n (seq ∷ d.recent_seqs) h
      ∙ ap (λ r. (seq == n) || r) (t.agree n (omega (arith, h)));
}

same_answer :
    (window seq : ℕ) (d : Dedupe) (m : Memory)
    → Tracks window d m
    → is_repeat window seq d ≡ seen_before window seq m
same_answer window seq d m t = elim (Bool-cases (ltb (seq + window) d.next_seq)) [
  | inl e ↦
      let e' : ltb (seq + window) (next_after m.seen) ≡ true =
        ap (ltb (seq + window)) (sym t.next) ∙ e in
      rw (e, e') refl
  | inr e ↦
      let e' : ltb (seq + window) (next_after m.seen) ≡ false =
        ap (ltb (seq + window)) (sym t.next) ∙ e in
      let near : d.next_seq ≤ seq + window = not_lt→le (seq + window) d.next_seq e in
      rw (e, e') (t.agree seq near)
]

accept-Tracks :
    (window seq : ℕ) (d : Dedupe) (m : Memory)
    → Tracks window d m
    → Tracks window (accept window seq d).0 (recall window seq m).0
      × ((accept window seq d).1 ≡ (recall window seq m).1)
accept-Tracks window seq d m t = elim (Bool-cases (seen_before window seq m)) [
  | inl e ↦ rw (same_answer window seq d m t ∙ e, e) (t, refl)
  | inr e ↦ rw (same_answer window seq d m t ∙ e, e) (remember-Tracks window seq d m t, refl)
]

answers_agree :
    (option : ℕ) (fs : List (String × ℕ)) (d : Dedupe) (m : Memory)
    → Tracks (max 1 option) d m
    → answers option fs d ≡ ideal_answers option fs m
unfolding is_duplicate_inbound
answers_agree option [] d m t = refl
answers_agree option ((b, s) ∷ fs) d m t =
    let both =
      accept-Tracks (max 1 option) s (for_boot b d) (of_boot b m)
        (for_boot-Tracks (max 1 option) b d m t) in
    ap (λ a. a ∷ answers option fs (accept (max 1 option) s (for_boot b d)).0) both.1
    ∙ ap (λ r. (recall (max 1 option) s (of_boot b m)).1 ∷ r)
        (answers_agree option fs (accept (max 1 option) s (for_boot b d)).0
          (recall (max 1 option) s (of_boot b m)).0 both.0)

-- Forgetting is invisible: over any run of frames, of any boots and in any order, the receiver that
-- prunes its set of recent numbers gives to every frame the same answer as one that remembers every
-- number it accepted since the boot, for every size of the window.
pub is_duplicate_inbound-answers :
    (option : ℕ) (fs : List (String × ℕ))
    → answers option fs fresh ≡ ideal_answers option fs no_memory
is_duplicate_inbound-answers option fs =
    answers_agree option fs fresh no_memory
      (record { boot = refl; next = refl; agree = λ n h. refl })
