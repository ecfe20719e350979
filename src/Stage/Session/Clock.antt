-- ===== src/Stage/Session/Clock.antt =====
-- The time limits of a session.
use linux_stage_asio.Prelude.{ℕ, ◌+◌, ◌≤◌, ◌<◌, ◌≡◌, ◌↔◌, ◌⊎◌, true, false, ◌∷◌, arith}
use linux_stage_asio.Stage.Session.{Session, Host, aborted, beat}
use linux_stage_asio.Stage.Session.Input.{process_tick_always, tick}

-- A timer tick of a live session that waits for the handshake leaves it alive exactly when the
-- wait began within the last 5000 ms, and changes nothing in that case.
pub tick_waiting :
    (h : Host) (now ack_no : ℕ) (s : Session)
    → s.disposed ≡ false
    → s.establish ≡ false
    → ((tick h now ack_no s).disposed ≡ false ↔ (s.wait_start ≤ now) × (now < s.wait_start + 5000))
      × ((tick h now ack_no s).disposed ≡ true ⊎ (tick h now ack_no s ≡ s))
unfolding tick process_tick_always
tick_waiting h now ack_no s d e = ground arith

-- The span of some milliseconds since a time is over, or the time lies ahead.
abbrev pub Late : ℕ → ℕ → ℕ → Type 0
Late now since span = (now < since) ⊎ (since + span ≤ now)

abbrev pub InTime : ℕ → ℕ → ℕ → Type 0
InTime now since span = (since ≤ now) × (now < since + span)

-- A timer tick of a live and established session, on a connection that can be written to, comes to
-- one of three: the last message is 30000 ms old or older, or lies ahead, and the session ends; else
-- the session is a client whose last heartbeat is 10000 ms old or older, or lies ahead, and it sends
-- one and notes the time; else it is a server, or the heartbeat is not due, and nothing changes.
pub tick_established :
    (h : Host) (now ack_no : ℕ) (s : Session)
    → s.disposed ≡ false
    → s.establish ≡ true
    → h.send_ok (beat ack_no) ≡ true
    → (Late now s.activity 30000
        × ((tick h now ack_no s).disposed ≡ true)
        × ((tick h now ack_no s).log ≡ aborted ∷ s.log))
      ⊎ (InTime now s.activity 30000
          × (s.servering ≡ false)
          × Late now s.heartbeat_at 10000
          × (tick h now ack_no s ≡ record s { heartbeat_at = now; log = beat ack_no ∷ s.log }))
      ⊎ (InTime now s.activity 30000
          × ((s.servering ≡ true) ⊎ InTime now s.heartbeat_at 10000)
          × (tick h now ack_no s ≡ s))
unfolding tick process_tick_always
tick_established h now ack_no s d e w = ground arith
