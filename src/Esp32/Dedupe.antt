-- ===== src/Esp32/Dedupe.antt =====
-- Which inbound frames are repeats (`_is_duplicate_inbound` of
-- packages/esp32-link/src/doorboard_esp32_link/esp32.py). `next_seq` is the source's high-water mark
-- plus 1, so it starts at 0 where the source's starts at -1. The set of recent numbers is a list.
pub mod Seen
pub mod Bound
pub mod Once
pub mod Again
use doorboard.Prelude.{
  ℕ, suc, ◌+◌, max, String, Bool, true, false, ◌||◌, Option, none, some, List, [], ◌∷◌, length, ltb,
  leb, ◌==◌, str_eq, if◌then◌else◌,
}

pub record Dedupe : Type 0 where
  pub boot_id : Option String
  pub next_seq : ℕ
  pub recent_seqs : List ℕ

abbrev pub fresh : Dedupe
fresh = record { boot_id = none; next_seq = 0; recent_seqs = [] }

abbrev pub same_boot : String → Option String → Bool
same_boot b none = false
same_boot b (some c) = str_eq b c

-- `if boot_id != self._dedupe_boot_id`
abbrev pub for_boot : String → Dedupe → Dedupe
for_boot b d =
    if same_boot b d.boot_id then d else record { boot_id = some b; next_seq = 0; recent_seqs = [] }

abbrev pub has : ℕ → List ℕ → Bool
has n [] = false
has n (m ∷ ms) = (m == n) || has n ms

-- `recent_seq > high_water - window`
abbrev pub prune : ℕ → ℕ → List ℕ → List ℕ
prune window next [] = []
prune window next (m ∷ ms) =
    let rest = prune window next ms in if leb next (m + window) then m ∷ rest else rest

abbrev pub bounded : ℕ → ℕ → List ℕ → List ℕ
bounded window next ms = if ltb window (length ms) then prune window next ms else ms

-- `seq <= high_water - window or seq in recent_seqs`
abbrev pub is_repeat : ℕ → ℕ → Dedupe → Bool
is_repeat window seq d = ltb (seq + window) d.next_seq || has seq d.recent_seqs

abbrev pub remember : ℕ → ℕ → Dedupe → Dedupe
remember window seq d = record d {
  next_seq = max d.next_seq (suc seq);
  recent_seqs = bounded window (max d.next_seq (suc seq)) (seq ∷ d.recent_seqs);
}

abbrev pub accept : ℕ → ℕ → Dedupe → Dedupe × Bool
accept window seq d = if is_repeat window seq d then (d, true) else (remember window seq d, false)

-- The option is at least 1 where it is used: `max(1, dedupe_recent_window)`.
unfoldable pub is_duplicate_inbound : ℕ → String → ℕ → Dedupe → Dedupe × Bool
is_duplicate_inbound option boot seq d = accept (max 1 option) seq (for_boot boot d)
