-- ===== src/Stage/Codec.antt =====
-- `EncryptMessage` and `DecryptMessage` of stage/stage/StageSocket.cpp: compression and the cipher,
-- unless the socket or the command is transparent. Locks and failed allocations are left out.
pub mod Matching
use linux_stage_asio.Prelude.{
  ℕ, Bool, true, false, ◌&&◌, ◌||◌, not, none, some, List, [], ◌∷◌, ltb, ◌==◌, if◌then◌else◌,
  length, take,
}
use linux_stage_asio.Prelude.Words.{u32, Bytes}
use linux_stage_asio.Prelude.Outcome.{Outcome, done, refused, fault, ◌>>=◌}
use linux_stage_asio.Core.Segment.{Segment, unsafe_addr, is_negative}
use linux_stage_asio.Net.Message.{Message}
use linux_stage_asio.Net.Receiver.{write}
use linux_stage_asio.Cipher.Rc4.{rc4_crypt}
use linux_stage_asio.Stage.Gzip.{Zlib, compress, decompress}

-- The fields of `StageSocket` that the two functions read.
pub record Link : Type 0 where
  pub transparent : Bool
  pub transparent_protocol : List ℕ
  pub compressed_messages : Bool
  pub key : Bytes
  pub mod_vt : ℕ
  pub subtract : ℕ

-- `_transparentProtocol.find(commandId) != _transparentProtocol.end()`
unfoldable pub contains : List ℕ → ℕ → Bool
contains [] command = false
contains (c ∷ cs) command = c == command || contains cs command

-- Undefined behaviour of the cipher is a fault.
abbrev pub cipher : Link → Bool → Bytes → Outcome Bytes
cipher l encrypting block = elim (rc4_crypt l.mod_vt l.key block l.subtract encrypting) [
  | none ↦ fault
  | some b ↦ done b
]

-- The block to send on, and whether it is compressed: only if that makes it smaller.
unfoldable pub compress_step : Zlib → Link → Bytes → Outcome (Bytes × Bool)
compress_step z l payload =
    if l.compressed_messages
    then elim (compress z payload) [
      | none ↦ refused
      | some output ↦
          if length output == 0
          then refused
          else if ltb (length output) (length payload)
          then done (output, true)
          else done (payload, false)
    ]
    else done (payload, false)

-- `EncryptMessage` on a NULL payload of some size: refused where it is to be compressed, else
-- handed back as it is.
abbrev pub refuses_null : Link → ℕ → Bool
refuses_null l command =
    not (l.transparent || contains l.transparent_protocol command) && l.compressed_messages

-- `EncryptMessage` on a payload that is not empty.
unfoldable pub encrypt_message : Zlib → Link → ℕ → Bytes → Outcome (Bytes × Bool)
unfolding contains compress_step
encrypt_message z l command payload =
    if l.transparent || contains l.transparent_protocol command
    then done (payload, false)
    else compress_step z l payload >>= λ (block : Bytes × Bool).
        cipher l true block.0 >>= λ (coded : Bytes). done (coded, block.1)

-- The payload in place of the segment, once it is deciphered: `contents`, `offset` 0.
unfoldable pub inflate_step : Zlib → Message → Segment → Bytes → Outcome Message
inflate_step z m s block = elim (decompress z block) [
  | none ↦ refused
  | some output ↦
      if length output == 0
      then refused
      else done (record m {
        payload = some (record { buffer = some output; offset = 0; length = u32 (length output) });
      })
]

-- The cipher works in place, on the memory of the segment.
unfoldable pub decipher_step : Zlib → Link → Message → Bool → Segment → Bytes → Outcome Message
unfolding inflate_step
decipher_step z l m compressed s memory =
    cipher l false (take s.length memory) >>= λ (block : Bytes).
    if compressed
    then inflate_step z m s block
    else done (record m {
      payload = some (record s {
        buffer = elim s.buffer [ none ↦ none | some b ↦ some (write b s.offset block) ];
      });
    })

-- Decompressing an empty payload would not end; `ProcessReceive` hands over none.
unfoldable pub decrypt_message : Zlib → Link → Message → Bool → Outcome Message
unfolding contains decipher_step
decrypt_message z l m compressed =
    if l.transparent || contains l.transparent_protocol m.command_id
    then done m
    else elim m.payload [
      | none ↦ done m
      | some s ↦ if is_negative s.length then refused else elim (unsafe_addr s) [
        | none ↦ if s.length == 0 then (if compressed then fault else done m) else refused
        | some memory ↦ decipher_step z l m compressed s memory
      ]
    ]
