-- ===== src/Net/Receiver.antt =====
-- The receiving side of stage/net/Socket.cpp: `StartReceive`, `ProcessReceive`, `CheckingMaskOff`.
-- The kernel writes what arrives into the buffer that `StartReceive` handed it, which `arrive`
-- models; then the callback runs `ProcessReceive`. `this`, the header pointer and fresh objects
-- are never null. What `ProcessInput` is handed is the message that a step delivers.
pub mod Writes
pub mod Frames
pub mod HeaderStep
pub mod BodyStep
pub mod Completion
pub mod Progress
pub mod HeaderChunk
pub mod BodyChunk
pub mod Stream
use linux_stage_asio.Prelude.{
  ℕ, ◌+◌, ◌-◌, ◌%◌, ◌^◌, Bool, true, false, ◌&&◌, ◌||◌, not, Option, none, some, List, [], ◌∷◌,
  ◌++◌, ltb, leb, ◌==◌, if◌then◌else◌, take, drop, length, replicate,
}
use linux_stage_asio.Prelude.Words.{Bytes, u16, u32}
use linux_stage_asio.Prelude.Outcome.{Outcome, done, refused, fault}
use linux_stage_asio.Core.Segment.{Segment, empty_segment, reset, unsafe_addr, is_negative}
use linux_stage_asio.Net.Message.{Message}
use linux_stage_asio.Net.Checksum.{mask_off32}
use linux_stage_asio.Net.Header.{Header, header_size, plsz, mask, decode}

-- `_receiver`; `phdr` is the memory of the header.
pub record Receiver : Type 0 where
  pub phdr : Bytes
  pub fhdr : Bool
  pub ofs : ℕ
  pub payload : Option Segment

-- `Receiver::Clear`
unfoldable pub fresh : Receiver
fresh = record { phdr = replicate header_size 0; fhdr = false; ofs = 0; payload = none }

-- The virtual functions that `ProcessReceive` calls: `GetKf`, `IsNeedToVerifyMaskOff`,
-- `DecryptMessage` (`refused` for a null message).
pub record Endpoint : Type 0 where
  pub kf : ℕ
  pub verify : Bool
  pub decrypt : Message → Bool → Outcome Message

-- HR_SUCCESSS, HR_ABORTING, HR_CLOSEING, the exception of `BufferSegment::Reset`, or undefined
-- behaviour of the deciphering.
pub data Status : Type 0 where
  success aborting closing thrown undefined : Status

pub record Step : Type 0 where
  pub status : Status
  pub receiver : Receiver
  pub delivered : Option Message

abbrev pub mss : ℕ
mss = 1400

-- The payload size of a header, by the mode of the endpoint.
abbrev pub payload_size : Endpoint → Header → ℕ
payload_size e h = if e.verify then plsz h else h.len

-- A mask of 0 or ~0 is refused.
abbrev pub mask_missing : Header → Bool
mask_missing h = mask h == 0 || mask h == 0xffff

-- What `StartReceive` asks the kernel for, or the code of its early return.
pub data Request : Type 0 where
  want : ℕ → Request
  refuse : ℕ → Request

abbrev capped : ℕ → ℕ
capped len = if ltb mss len then mss else len

unfoldable pub request_header : Receiver → Request
request_header r =
    let len = (header_size + 2 ^ 64 - r.ofs) % 2 ^ 64 in
    if len == 0 then refuse 4 else want (capped len)

unfoldable pub request_payload : Endpoint → Receiver → Segment → Request
request_payload e r s =
    let len = (payload_size e (decode r.phdr) + 2 ^ 32 - r.ofs) % 2 ^ 32 in
    if s.length == 0 || is_negative s.length then refuse 5 else elim (unsafe_addr s) [
      | none ↦ refuse 7
      | some b ↦ if len == 0 then refuse 7 else want (capped len)
    ]

unfoldable pub start_receive : Endpoint → Receiver → Request
unfolding request_header request_payload
start_receive e r =
    if r.fhdr
    then elim r.payload [ none ↦ refuse 5 | some s ↦ request_payload e r s ]
    else request_header r

-- A store of a block into a buffer at an offset.
abbrev pub write : Bytes → ℕ → Bytes → Bytes
write buf i block = take i buf ++ (block ++ drop (i + length block) buf)

-- The kernel's store of a chunk where `StartReceive` pointed.
unfoldable pub arrive : Receiver → Bytes → Receiver
arrive r chunk =
    if r.fhdr
    then record r {
      payload = elim r.payload [
        | none ↦ none
        | some s ↦ some (record s {
          buffer = elim s.buffer [ none ↦ none | some b ↦ some (write b (s.offset + r.ofs) chunk) ];
        })
      ];
    }
    else record r { phdr = write r.phdr r.ofs chunk }

-- `CheckingMaskOff`: the mask is there, the payload is there if the header says so, and the one's
-- complement sum of the header and the payload has every bit set.
unfoldable pub checking_mask_off : Endpoint → Bytes → Option Segment → Bool
checking_mask_off e phdr payload =
    let h = decode phdr in
    let header_sum = mask_off32 phdr 0 in
    let check =
      λ (data_block : Bytes). u16 (2 ^ 32 - 1 - mask_off32 data_block header_sum % 2 ^ 16) == 0 in
    if mask_missing h then false else if payload_size e h == 0 then check [] else elim payload [
      | none ↦ false
      | some s ↦
          if s.length == 0 || is_negative s.length
          then false
          else elim (unsafe_addr s) [ none ↦ false | some b ↦ check (take s.length b) ]
    ]

-- `payload = _receiver.payload; if (payload) _receiver.payload = <an empty segment>`
abbrev emptied : Option Segment → Option Segment
emptied none = none
emptied (some s) = some empty_segment

-- The tail of `ProcessReceive`, on a complete message: the check of the mask, then decryption of a
-- payload that is not empty.
unfoldable pub finish : Endpoint → Receiver → Step
finish e r =
    let h = decode r.phdr in
    let message : Message = record {
      command_id = h.cmd;
      sequence_no = h.seq;
      payload = r.payload;
    } in
    let r' : Receiver = record r { ofs = 0; fhdr = false; payload = emptied r.payload } in
    let refusal : Step = record { status = aborting; receiver = r'; delivered = none } in
    let plain : Step = record { status = success; receiver = r'; delivered = some message } in
    let deciphered : Step = elim (e.decrypt message h.compressed) [
      | done m ↦ record { status = success; receiver = r'; delivered = some m }
      | refused ↦ refusal
      | fault ↦ record { status = undefined; receiver = r'; delivered = none }
    ] in
    if e.verify && not (checking_mask_off e r.phdr r.payload)
    then refusal
    else elim r.payload [ none ↦ plain | some s ↦ if s.length == 0 then plain else deciphered ]

abbrev stay : Status → Receiver → Step
stay status r = record { status = status; receiver = r; delivered = none }

-- The header is complete: a payload is allocated, or the message is complete with none.
unfoldable pub header_done : Endpoint → Receiver → Step
unfolding finish
header_done e r =
    let h = decode r.phdr in
    let size = payload_size e h in
    let r' = record r { ofs = 0; fhdr = true } in
    if e.verify && mask_missing h
    then stay aborting r'
    else if size == 0
    then finish e r'
    else elim (reset (some (replicate size 0)) 0 size) [
      | none ↦ stay thrown r'
      | some s ↦ stay success (record r' { payload = some s })
    ]

unfoldable pub receive_header : Endpoint → Receiver → ℕ → Step
unfolding header_done
receive_header e r sz =
    let r' = record r { ofs = u32 (r.ofs + sz) } in
    if r.ofs == 0 && not ((decode r.phdr).fk == e.kf)
    then stay aborting r
    else if leb header_size r'.ofs
    then header_done e r'
    else stay success r'

unfoldable pub receive_payload : Endpoint → Receiver → ℕ → Step
unfolding finish
receive_payload e r sz =
    let h = decode r.phdr in
    let r' = record r { ofs = u32 (r.ofs + sz) } in
    if e.verify && mask_missing h
    then stay aborting r
    else if leb (payload_size e h) r'.ofs
    then finish e r'
    else stay success r'

-- `failed` is the error code of the completion, `sz` the number of bytes that arrived.
unfoldable pub process_receive : Endpoint → Receiver → Bool → ℕ → Step
unfolding receive_header receive_payload
process_receive e r failed sz =
    if failed
    then stay aborting r
    else if sz == 0
    then stay closing r
    else if r.fhdr
    then receive_payload e r sz
    else receive_header e r sz

-- One completion of the asynchronous receive.
unfoldable pub receive : Endpoint → Receiver → Bytes → Step
receive e r chunk = process_receive e (arrive r chunk) false (length chunk)

-- The receive loop over what arrives, until a step is no success: all that was delivered, and
-- where the loop stopped.
unfoldable pub pump : Endpoint → Receiver → List Bytes → List Message × Status × Receiver
pump e r [] = ([], success, r)
pump e r (chunk ∷ chunks) =
    let step = receive e r chunk in
    let rest = pump e step.receiver chunks in
    let out : List Message = elim step.delivered [ none ↦ [] | some m ↦ m ∷ [] ] in
    elim step.status [
      | success ↦ (out ++ rest.0, rest.1, rest.2)
      | other ↦ (out, other, step.receiver)
    ]
