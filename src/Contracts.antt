-- ===== src/Contracts.antt =====
-- The session contract of packages/contracts/src/doorboard_contracts/events.py: the states of a
-- visitor session and the table of legal transitions.
pub mod Graph
use doorboard.Prelude.{ℕ, Bool, true, false, ◌||◌, List, [], ◌∷◌, ◌==◌}

-- `class SessionState`
pub data SessionState : Type 0 where
  idle approach_detected identity_cached button_pressed visitor_mode ringing : SessionState
  answered unanswered_timeout video_message_offered video_message_recording : SessionState
  video_message_review video_message_saved session_end : SessionState

-- A number for each state, by which two states are compared.
abbrev pub code : SessionState → ℕ
code idle = 0
code approach_detected = 1
code identity_cached = 2
code button_pressed = 3
code visitor_mode = 4
code ringing = 5
code answered = 6
code unanswered_timeout = 7
code video_message_offered = 8
code video_message_recording = 9
code video_message_review = 10
code video_message_saved = 11
code session_end = 12

abbrev pub state_eq : SessionState → SessionState → Bool
state_eq s t = code s == code t

-- `s in (...)`
abbrev pub contains : List SessionState → SessionState → Bool
contains [] t = false
contains (s ∷ ss) t = state_eq s t || contains ss t

-- `LEGAL_SESSION_TRANSITIONS`
abbrev pub legal_targets : SessionState → List SessionState
legal_targets idle = approach_detected ∷ button_pressed ∷ []
legal_targets approach_detected = identity_cached ∷ button_pressed ∷ idle ∷ []
legal_targets identity_cached = button_pressed ∷ idle ∷ approach_detected ∷ []
legal_targets button_pressed = visitor_mode ∷ session_end ∷ []
legal_targets visitor_mode = ringing ∷ session_end ∷ []
legal_targets ringing = answered ∷ unanswered_timeout ∷ session_end ∷ []
legal_targets answered = video_message_offered ∷ session_end ∷ []
legal_targets unanswered_timeout = video_message_offered ∷ session_end ∷ []
legal_targets video_message_offered = video_message_recording ∷ session_end ∷ []
legal_targets video_message_recording = video_message_review ∷ session_end ∷ []
legal_targets video_message_review =
    video_message_saved ∷ video_message_recording ∷ session_end ∷ []
legal_targets video_message_saved = session_end ∷ []
legal_targets session_end = idle ∷ []

-- `to_state in LEGAL_SESSION_TRANSITIONS.get(from_state, ())`
unfoldable pub legal : SessionState → SessionState → Bool
legal s t = contains (legal_targets s) t
