-- ===== src/Stage/Session/Lasting.antt =====
-- stage/stage/StageSocket.cpp: an established session, as long as its connection lasts.
use linux_stage_asio.Prelude.{ℕ, ◌≡◌, refl, ◌∙◌, true, false, arith}
use linux_stage_asio.Net.Message.{Message}
use linux_stage_asio.Stage.Session.{Session, Host}
use linux_stage_asio.Stage.Session.Input.{
  process_input, process_heartbeat, tick, process_tick_always,
}
use linux_stage_asio.Stage.Session.Handshake.{link_of}

-- The session after messages and ticks that have not ended it. The host may answer differently each
-- time.
pub data Lasts (s : Session) : Session → Type 0 where
  at_once : Lasts s s
  heard :
      {t : Session} (h : Host) (now : ℕ) (m : Message)
      → Lasts s t
      → (process_input h now t m).disposed ≡ false
      → Lasts s (process_input h now t m)
  ticked :
      {t : Session} (h : Host) (now ack_no : ℕ)
      → Lasts s t
      → (tick h now ack_no t).disposed ≡ false
      → Lasts s (tick h now ack_no t)

process_input-link_of :
    (h : Host) (now : ℕ) (s : Session) (m : Message)
    → s.establish ≡ true
    → (process_input h now s m).disposed ≡ false
    → ((process_input h now s m).establish ≡ true) × (link_of (process_input h now s m) ≡ link_of s)
unfolding process_input process_heartbeat
process_input-link_of h now s m e d = ground arith

tick-link_of :
    (h : Host) (now ack_no : ℕ) (s : Session)
    → s.establish ≡ true
    → (tick h now ack_no s).disposed ≡ false
    → ((tick h now ack_no s).establish ≡ true) × (link_of (tick h now ack_no s) ≡ link_of s)
unfolding tick process_tick_always
tick-link_of h now ack_no s e d = ground arith

-- Behind the handshake the key material stays, until the connection ends.
pub Lasts-link_of :
    {s t : Session}
    → Lasts s t
    → s.establish ≡ true
    → (t.establish ≡ true) × (link_of t ≡ link_of s)
Lasts-link_of at_once e = (e, refl)
Lasts-link_of (heard {t = t} h now m l d) e =
    let (up, same) = Lasts-link_of l e in
    let (stays, keeps) = process_input-link_of h now t m up d in (stays, keeps ∙ same)
Lasts-link_of (ticked {t = t} h now ack_no l d) e =
    let (up, same) = Lasts-link_of l e in
    let (stays, keeps) = tick-link_of h now ack_no t up d in (stays, keeps ∙ same)
