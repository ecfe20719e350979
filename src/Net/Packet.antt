-- ===== src/Net/Packet.antt =====
-- The sending side of stage/net/Socket.cpp: the two `ToPacket`. A payload pointer is the memory
-- behind it, or `none` for NULL; `refused` is the null packet after `AbortINT3`, `fault` the `memcpy`
-- from NULL that the guards on `packet_size` let through.
pub mod Framing
pub mod Delivery
use linux_stage_asio.Prelude.{
  ℕ, Bool, false, ◌||◌, Option, none, some, List, [], ◌∷◌, ◌++◌, ◌==◌, if◌then◌else◌, length, take,
}
use linux_stage_asio.Prelude.Words.{u16, Bytes}
use linux_stage_asio.Prelude.Outcome.{Outcome, done, refused, fault, ◌>>=◌}
use linux_stage_asio.Core.Segment.{unsafe_addr, is_negative}
use linux_stage_asio.Net.Message.{Message}
use linux_stage_asio.Net.Header.{encode}

-- The virtual functions that `ToPacket` calls: `GetKf` and `EncryptMessage`, which gives the bytes
-- to send and whether they are compressed, or refuses a NULL payload of some size.
pub record Sender : Type 0 where
  pub kf : ℕ
  pub encrypt : ℕ → Bytes → Outcome (Bytes × Bool)
  pub null_refused : ℕ → Bool

-- The packet: the header with the size of the payload, and the payload behind it.
abbrev pub assemble : Sender → ℕ → ℕ → Bool → Bytes → Bytes
assemble s command_id sequence_no compressed body =
    encode (record {
      fk = s.kf;
      len = length body;
      cmd = command_id;
      compressed = compressed;
      seq = sequence_no;
    })
    ++ body

-- `ToPacket(commandId, sequenceNo, payload, payload_size, packet_size)`. `payload_size` is a UInt32
-- that is read as an `int`.
unfoldable pub to_packet_raw : Sender → ℕ → ℕ → Option Bytes → ℕ → Outcome Bytes
to_packet_raw s command_id sequence_no payload size =
    if size == 0
    then done (assemble s command_id sequence_no false [])
    else if is_negative size
    then refused
    else elim payload [
      | none ↦ if s.null_refused (u16 command_id) then refused else fault
      | some memory ↦ s.encrypt (u16 command_id) (take size memory) >>= λ (coded : Bytes × Bool).
          done (assemble s command_id sequence_no coded.1 coded.0)
    ]

-- `ToPacket(message, packet_size)`
unfoldable pub to_packet : Sender → Message → Outcome Bytes
unfolding to_packet_raw
to_packet s m = elim m.payload [
  | none ↦ to_packet_raw s m.command_id m.sequence_no none 0
  | some segment ↦
      if is_negative segment.length || is_negative segment.offset
      then refused
      else to_packet_raw s m.command_id m.sequence_no (unsafe_addr segment) segment.length
]

-- The packets of some messages, one behind the other on the connection.
unfoldable pub send_all : Sender → List Message → Outcome Bytes
send_all s [] = done []
send_all s (m ∷ ms) = do packet ← to_packet s m; rest ← send_all s ms; done (packet ++ rest)
