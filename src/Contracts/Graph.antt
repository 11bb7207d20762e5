-- ===== src/Contracts/Graph.antt =====
-- The transition table as a graph (packages/contracts/src/doorboard_contracts/events.py).
use doorboard.Prelude.{◌≡◌, true, false, arith}
use doorboard.Contracts.{SessionState, idle, session_end, state_eq, legal}

pub state_eq→eq : (s t : SessionState) → state_eq s t ≡ true → s ≡ t
state_eq→eq s t h = ground arith

-- From every state of a session there is a legal step to its end or to IDLE.
pub legal_exit :
    (s : SessionState) → state_eq s idle ≡ false → legal s session_end ≡ false → legal s idle ≡ true
unfolding legal
legal_exit s h e = ground arith
