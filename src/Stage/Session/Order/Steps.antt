-- ===== src/Stage/Session/Order/Steps.antt =====
-- Every step keeps the order of the events.
use linux_stage_asio.Prelude.{ℕ, ◌≡◌, Bool, true, false, arith, ◌==◌}
use linux_stage_asio.Net.Message.{Message}
use linux_stage_asio.Stage.Session.{Session, Host, initial, authentication_aaa, heartbeat_command}
use linux_stage_asio.Stage.Session.Input.{
  pass_on, is_critical, process_input, tick, completely_warp, process_heartbeat,
  process_tick_always,
}
use linux_stage_asio.Stage.Session.Order.{
  Step, input, timer, completed, cut, Reach, start, next, has_aborted, ordered,
}
use linux_stage_asio.Stage.Session.Order.Handshaking.{
  sound, abort-sound, completely_warp-sound, process_handshake-sound,
}

process_heartbeat-sound :
    (h : Host) (s : Session) (m : Message)
    → sound s ≡ true
    → s.disposed ≡ false
    → s.establish ≡ true
    → sound (process_heartbeat h s m) ≡ true
unfolding sound process_heartbeat
process_heartbeat-sound h s m k d e = ground arith

tick-sound :
    (h : Host) (now ack_no : ℕ) (s : Session) → sound s ≡ true → sound (tick h now ack_no s) ≡ true
unfolding sound tick process_tick_always
tick-sound h now ack_no s k = ground arith

pass_on-sound :
    (h : Host) (s : Session) (m : Message)
    → sound s ≡ true
    → s.disposed ≡ false
    → s.establish ≡ true
    → is_critical m.command_id ≡ false
    → (m.command_id == authentication_aaa) ≡ false
    → (m.command_id == heartbeat_command) ≡ false
    → sound (pass_on h s m) ≡ true
unfolding sound
pass_on-sound h s m k d e critical authentication heartbeat = ground arith

process_input-sound :
    (h : Host) (now : ℕ) (s : Session) (m : Message)
    → sound s ≡ true
    → sound (process_input h now s m) ≡ true
unfolding process_input
process_input-sound h now s m k =
    let active : Session = record s { activity = now } in
    let stays : sound active ≡ true = unfold sound in k in
    ground (
      arith,
      abort-sound s k,
      abort-sound active stays,
      process_handshake-sound h now active m stays,
      process_heartbeat-sound h active m stays,
      pass_on-sound h active m stays,
    )

Step-sound : {s t : Session} → Step s t → sound s ≡ true → sound t ≡ true
Step-sound {s = s} (input h now m) k = process_input-sound h now s m k
Step-sound {s = s} (timer h now ack_no) k = tick-sound h now ack_no s k
Step-sound {s = s} (completed h now request ack_no error v) k =
    completely_warp-sound h now s request ack_no error v k
Step-sound {s = s} cut k = abort-sound s k

Reach-sound : {s t : Session} → Reach s t → sound s ≡ true → sound t ≡ true
Reach-sound start k = k
Reach-sound (next r e) k = Step-sound e (Reach-sound r k)

-- From a new session, client or server, whatever messages, ticks and late answers come and however
-- the host answers: nothing is raised behind the end of the connection, the opening is raised once
-- at most, heartbeats are sent and messages handed on only behind it, and the messages have a command
-- of the stage's range that is neither the handshake's nor the heartbeat's. The session is disposed
-- exactly when its end has been raised.
pub Reach-ordered :
    (servering handler only_routing : Bool) (link_type created started : ℕ) (s : Session)
    → Reach (initial servering handler only_routing link_type created started) s
    → (ordered s.log ≡ true) × (s.disposed ≡ has_aborted s.log)
unfolding sound
Reach-ordered servering handler only_routing link_type created started s r =
    let k = Reach-sound r (unfold sound in ground arith) in (ground arith, ground arith)

Step-dead : {s t : Session} → Step s t → s.disposed ≡ true → (t.disposed ≡ true) × (t.log ≡ s.log)
unfolding process_input tick completely_warp
Step-dead {s = s} (input h now m) d = ground arith
Step-dead {s = s} (timer h now ack_no) d = ground arith
Step-dead {s = s} (completed h now request ack_no error v) d = ground arith
Step-dead {s = s} cut d = ground arith

-- A disposed session that can be reached is not established, its end has been raised, and every
-- further step leaves it disposed and raises nothing.
pub Reach-disposed :
    (servering handler only_routing : Bool) (link_type created started : ℕ) (s t : Session)
    → Reach (initial servering handler only_routing link_type created started) s
    → s.disposed ≡ true
    → Step s t
    → (s.establish ≡ false) × (has_aborted s.log ≡ true) × (t.disposed ≡ true) × (t.log ≡ s.log)
unfolding sound
Reach-disposed servering handler only_routing link_type created started s t r d e =
    let k = Reach-sound r (unfold sound in ground arith) in
    let last = Step-dead e d in (ground arith, ground arith, last.0, last.1)
