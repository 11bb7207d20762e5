-- ===== src/Door/Session/Commands.antt =====
-- Everything that can happen to a session machine (apps/door-api/src/door_api/session.py), as one
-- type of commands: the calls of its handlers, a timer that fires, and a restart of the process.
use doorboard.Prelude.{ℕ, String, Bool, Option, List, [], ◌∷◌}
use doorboard.Door.Session.Types.{SessionConfig, Entry, Draw, Machine, Request, Called}
use doorboard.Door.Session.Transition.{transition}
use doorboard.Door.Session.Handlers
use doorboard.Door.Session.Recipients.{Text}
use doorboard.Door.Session.Restore.{fresh, restore}

pub data Command : Type 0 where
  request : Request → Command
  button_pressed : Option ℕ → String → Entry → Option Bool → Option String → Command
  identity_stable : String → String → String → Option ℕ → Command
  identity_expired contact_changed answered unanswered session_end : String → Command
  video_message_offer : Option ℕ → String → Command
  video_message_start video_message_stop video_message_rerecord : Command
  video_message_save : Option (List (Option Text)) → Command
  video_message_discard admin_reset fire : Command
  restart : ℕ → String → Command

-- The process ends and starts again: what is in memory is lost, and the store is kept. The events
-- that were handed out are history, and the environment goes on where it was.
abbrev pub reboot : Machine → Machine
reboot m = record (fresh m.store) { events = m.events; draws = m.draws }

module _ (c : SessionConfig) (env : ℕ → Draw) where
  unfoldable pub perform : Command → Machine → Called
  perform (request r) m = transition c env r m
  perform (button_pressed t s e b p) m = Handlers.handle_button_pressed c env t s e b p m
  perform (identity_stable a b d t) m = Handlers.handle_identity_stable c env a b d t m
  perform (identity_expired p) m = Handlers.handle_identity_expired c env p m
  perform (contact_changed s) m = Handlers.handle_contact_changed c env s m
  perform (answered t) m = Handlers.handle_answered c env t m
  perform (unanswered t) m = Handlers.handle_unanswered c env t m
  perform (session_end t) m = Handlers.handle_session_end c env t m
  perform (video_message_offer t s) m = Handlers.handle_video_message_offer c env t s m
  perform video_message_start m = Handlers.handle_video_message_start c env m
  perform video_message_stop m = Handlers.handle_video_message_stop c env m
  perform video_message_rerecord m = Handlers.handle_video_message_rerecord c env m
  perform (video_message_save rs) m = Handlers.handle_video_message_save c env rs m
  perform video_message_discard m = Handlers.handle_video_message_discard c env m
  perform admin_reset m = Handlers.handle_admin_reset c env m
  perform fire m = Handlers.fire c env m
  perform (restart now boot) m = restore c env now boot (reboot m)

  -- The machine after a list of commands, whatever each of them replied.
  unfoldable pub run : List Command → Machine → Machine
  run [] m = m
  run (k ∷ ks) m = run ks (perform k m).0
