-- ===== src/Stage/Delivery.antt =====
-- From the handshake to the messages: what two stage sockets send one another arrives.
use linux_stage_asio.Prelude.{ℕ, ◌^◌, ◌≤◌, ◌<◌, ◌≡◌, Bool, false, List, [], map, flatten, All}
use linux_stage_asio.Prelude.Words.{Bytes}
use linux_stage_asio.Prelude.Outcome.{done}
use linux_stage_asio.Net.Message.{Message}
use linux_stage_asio.Net.Receiver.{Receiver, success, pump}
use linux_stage_asio.Net.Receiver.Frames.{view, Fits, InHeader}
use linux_stage_asio.Net.Packet.{send_all}
use linux_stage_asio.Net.Packet.Framing.{Sendable}
use linux_stage_asio.Net.Packet.Delivery.{pump-send_all_from}
use linux_stage_asio.Stage.Gzip.{Zlib, IsZlib}
use linux_stage_asio.Stage.Codec.{Link}
use linux_stage_asio.Stage.Codec.Matching.{sender_of, endpoint_of, body_limit, Link-Matched}
use linux_stage_asio.Stage.Session.{Session}

-- The fields of a session that `EncryptMessage` and `DecryptMessage` read, with its two switches.
abbrev pub session_link : Session → Bool → Bool → Link
session_link s transparent compressed_messages = record {
  transparent = transparent;
  transparent_protocol = s.protocol;
  compressed_messages = compressed_messages;
  key = s.key;
  mod_vt = s.mod_vt;
  subtract = s.subtract;
}

-- The receive loop on this link hands on these messages out of the chunks and goes on.
abbrev pub HandsOn : Zlib → ℕ → Link → Receiver → List Message → List Bytes → Type 0
HandsOn z kf l r ms chunks =
    let result = pump (endpoint_of z l kf false) r chunks in
    (map view result.0 ≡ map view ms) × (result.1 ≡ success) × InHeader result.2 []

-- Messages between two sockets with the same key material.
pub link_delivers :
    (z : Zlib) (l : Link) (kf : ℕ) (r : Receiver) (ms : List Message) (chunks : List Bytes)
    → IsZlib z
    → kf < 2 ^ 8
    → 0 < l.mod_vt
    → l.mod_vt ≤ 255
    → InHeader r []
    → All (Sendable body_limit) ms
    → send_all (sender_of z l kf) ms ≡ done (flatten chunks)
    → Fits (endpoint_of z l kf false) r chunks
    → HandsOn z kf l r ms chunks
link_delivers z l kf r ms chunks law k pos low idle v sent fits =
    pump-send_all_from body_limit (sender_of z l kf) (endpoint_of z l kf false)
      (Link-Matched z l kf law k pos low) r ms chunks idle v sent fits
