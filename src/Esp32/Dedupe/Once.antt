-- ===== src/Esp32/Dedupe/Once.antt =====
-- At most once, and in order without a loss (`_is_duplicate_inbound` of
-- packages/esp32-link/src/doorboard_esp32_link/esp32.py).
use doorboard.Prelude.{
  ℕ, suc, ◌+◌, ◌≤◌, max, ◌≡◌, refl, ap, ◌∙◌, sym, subst, String, Bool, true, false, inl, inr,
  Bool-cases, some, List, [], ◌∷◌, ltb, ◌==◌, ==_iff, arith, eq_iff, if◌then◌else◌, if-true,
}
use doorboard.Esp32.Dedupe.{fresh, same_boot, has}
use doorboard.Esp32.Dedupe.Seen.{
  Memory, no_memory, of_boot, add, recall, seen_before, next_after, answers, ideal_answers,
  is_duplicate_inbound-answers,
}
use doorboard.Esp32.Dedupe.Bound.{Distinct}

-- The entries whose answer is `false`: the accepted ones.
abbrev pub accepted : List Bool → List ℕ → List ℕ
accepted [] ns = []
accepted (a ∷ more) [] = []
accepted (a ∷ more) (n ∷ ns) = let rest = accepted more ns in if a then rest else n ∷ rest

abbrev pub sent_by : String → List ℕ → List (String × ℕ)
sent_by b [] = []
sent_by b (n ∷ ns) = (b, n) ∷ sent_by b ns

-- The memory is about this boot.
Knows : String → Memory → Type 0
Knows b m = same_boot b m.boot ≡ true

of_boot_known : (b : String) (m : Memory) → Knows b m → of_boot b m ≡ m
unfolding Knows
of_boot_known b m h = if-true (same_boot b m.boot) m (record { boot = some b; seen = [] }) h

of_boot-Knows : (b : String) (m : Memory) → Knows b (of_boot b m)
unfolding Knows
of_boot-Knows b m = elim (Bool-cases (same_boot b m.boot)) [
  | inl e ↦ rw (e, e) refl
  | inr e ↦ rw e ((eq_iff b b).1 refl)
]

recall-Knows : (window n : ℕ) (b : String) (m : Memory) → Knows b m → Knows b (recall window n m).0
unfolding Knows
recall-Knows window n b m h = elim (Bool-cases (seen_before window n m)) [
  | inl e ↦ rw e h
  | inr e ↦ rw e h
]

-- The answers to frames of the boot that the memory is about.
abbrev pub recalled : ℕ → List ℕ → Memory → List Bool
recalled window [] m = []
recalled window (n ∷ ns) m = (recall window n m).1 ∷ recalled window ns (recall window n m).0

ideal_answers-recalled :
    (option : ℕ) (b : String) (ns : List ℕ) (m : Memory)
    → Knows b (of_boot b m)
    → ideal_answers option (sent_by b ns) m ≡ recalled (max 1 option) ns (of_boot b m)
ideal_answers-recalled option b [] m h = refl
ideal_answers-recalled option b (n ∷ ns) m h =
    let next = (recall (max 1 option) n (of_boot b m)).0 in
    let knows : Knows b next = recall-Knows (max 1 option) n b (of_boot b m) h in
    let again : of_boot b next ≡ next = of_boot_known b next knows in
    ap (λ r. (recall (max 1 option) n (of_boot b m)).1 ∷ r)
      (ideal_answers-recalled option b ns next (subst (Knows b) (sym again) knows)
        ∙ ap (recalled (max 1 option) ns) again)

apart : (n k : ℕ) (ns : List ℕ) → has n ns ≡ false → has k ns ≡ true → (n == k) ≡ false
apart n k ns hn hk = elim (Bool-cases (n == k)) [
  | inl e ↦ absurd (cc (hn, hk, (==_iff n k).0 e))
  | inr e ↦ e
]

-- What is accepted is new, and no number is accepted twice.
accepted_new :
    (window : ℕ) (ns : List ℕ) (m : Memory)
    → Distinct (accepted (recalled window ns m) ns)
      × ((k : ℕ) → has k m.seen ≡ true → has k (accepted (recalled window ns m) ns) ≡ false)
accepted_new window [] m = (tt, λ k h. refl)
accepted_new window (n ∷ ns) m = elim (Bool-cases (seen_before window n m)) [
  | inl e ↦ rw e (accepted_new window ns m)
  | inr e ↦
      let unseen : has n m.seen ≡ false = ground arith in
      let later = accepted_new window ns (add n m) in
      let own : (n == n) ≡ true = (==_iff n n).1 refl in
      rw e (
        (later.1 n (rw own refl), later.0),
        λ k h.
            let differs : (n == k) ≡ false = apart n k m.seen unseen h in
            let known : has k (n ∷ m.seen) ≡ true = rw differs h in rw differs (later.1 k known),
      )
]

-- Increasing numbers from `lo` on.
abbrev pub Increasing : ℕ → List ℕ → Type 0
Increasing lo [] = Unit
Increasing lo (n ∷ ns) = (lo ≤ n) × Increasing (suc n) ns

absent_from : (n : ℕ) (ns : List ℕ) → next_after ns ≤ n → has n ns ≡ false
absent_from n [] h = refl
absent_from n (m ∷ ms) h =
    let differs : (m == n) ≡ false = ground (arith, h) in
    rw differs (absent_from n ms (omega (arith, h)))

new_number : (window n : ℕ) (m : Memory) → next_after m.seen ≤ n → seen_before window n m ≡ false
new_number window n m h =
    let near : ltb (n + window) (next_after m.seen) ≡ false = ground arith in
    rw near (absent_from n m.seen h)

all_accepted :
    (window lo : ℕ) (ns : List ℕ) (m : Memory)
    → next_after m.seen ≤ lo
    → Increasing lo ns
    → accepted (recalled window ns m) ns ≡ ns
all_accepted window lo [] m h inc = refl
all_accepted window lo (n ∷ ns) m h inc =
    let new : seen_before window n m ≡ false = new_number window n m (omega (arith, h, inc.0)) in
    rw new
      (ap (λ r. n ∷ r) (all_accepted window (suc n) ns (add n m) (omega (arith, h, inc.0)) inc.1))

answers-recalled :
    (option : ℕ) (b : String) (ns : List ℕ)
    → answers option (sent_by b ns) fresh ≡ recalled (max 1 option) ns (of_boot b no_memory)
answers-recalled option b ns =
    is_duplicate_inbound-answers option (sent_by b ns)
    ∙ ideal_answers-recalled option b ns no_memory (of_boot-Knows b no_memory)

-- Of the frames of one boot, in whatever order they come and however often they are sent again, no
-- number is accepted twice.
pub is_duplicate_inbound-Distinct :
    (option : ℕ) (b : String) (ns : List ℕ)
    → Distinct (accepted (answers option (sent_by b ns) fresh) ns)
is_duplicate_inbound-Distinct option b ns =
    subst (λ answer. Distinct (accepted answer ns)) (sym (answers-recalled option b ns))
      (accepted_new (max 1 option) ns (of_boot b no_memory)).0

-- Frames of one boot whose numbers increase, with gaps or without, are accepted, every one.
pub is_duplicate_inbound-Increasing :
    (option : ℕ) (b : String) (ns : List ℕ)
    → Increasing 0 ns
    → accepted (answers option (sent_by b ns) fresh) ns ≡ ns
is_duplicate_inbound-Increasing option b ns inc =
    ap (λ answer. accepted answer ns) (answers-recalled option b ns)
    ∙ all_accepted (max 1 option) 0 ns (of_boot b no_memory) (omega arith) inc
