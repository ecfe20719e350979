-- ===== src/Stage/Session/Order.antt =====
-- The order of a session's events, over every sequence of messages, timer ticks and late answers.
pub mod Handshaking
pub mod Steps
use linux_stage_asio.Prelude.{ℕ, ◌≡◌, Bool, true, false, ◌&&◌, not, List, [], ◌∷◌, ◌==◌}
use linux_stage_asio.Net.Message.{Message}
use linux_stage_asio.Stage.Authentication.{Request}
use linux_stage_asio.Stage.Session.{
  Session, Host, Event, beat, opened, passed, aborted, abort, authentication_aaa, heartbeat_command,
}
use linux_stage_asio.Stage.Session.Input.{process_input, tick, completely_warp, is_critical}

-- What can happen to a session: a message, a tick of the timer, a call of `completelyWarp` by a
-- handler that kept it, and `AbortINT3` from outside. The host may answer differently each time.
pub data Step (s : Session) : Session → Type 0 where
  input : (h : Host) (now : ℕ) (m : Message) → Step s (process_input h now s m)
  timer : (h : Host) (now ack_no : ℕ) → Step s (tick h now ack_no s)
  completed :
      (h : Host) (now : ℕ) (request : Request) (ack_no error : ℕ)
      → s.servering ≡ true
      → Step s (completely_warp h now s request ack_no error)
  cut : Step s (abort s)

pub data Reach (s : Session) : Session → Type 0 where
  start : Reach s s
  next : {t u : Session} → Reach s t → Step t u → Reach s u

abbrev pub has_opened : List Event → Bool
has_opened [] = false
has_opened (opened ∷ log) = true
has_opened (_ ∷ log) = has_opened log

abbrev pub has_aborted : List Event → Bool
has_aborted [] = false
has_aborted (aborted ∷ log) = true
has_aborted (_ ∷ log) = has_aborted log

-- An event may follow the older ones: none follows the end, the connection opens once, and
-- heartbeats and messages follow the opening, the messages with a command for the stage.
abbrev pub may_follow : Event → List Event → Bool
may_follow opened log = not (has_aborted log) && not (has_opened log)
may_follow (beat _) log = not (has_aborted log) && has_opened log
may_follow (passed m) log =
    not (has_aborted log)
    && (has_opened log
        && (not (is_critical m.command_id)
            && (not (m.command_id == authentication_aaa)
                && not (m.command_id == heartbeat_command))))
may_follow _ log = not (has_aborted log)

abbrev pub ordered : List Event → Bool
ordered [] = true
ordered (e ∷ log) = may_follow e log && ordered log
