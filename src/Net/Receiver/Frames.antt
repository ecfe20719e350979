-- ===== src/Net/Receiver/Frames.antt =====
-- Frames on the wire, what an endpoint makes of them, and how far a receiver is inside one.
use linux_stage_asio.Prelude.{
  ℕ, ◌^◌, ◌≤◌, ◌<◌, ◌≡◌, ◌⊎◌, true, false, ◌&&◌, not, Option, none, some, List, [], ◌∷◌, ◌++◌,
  length, take,
}
use linux_stage_asio.Prelude.Words.{Bytes}
use linux_stage_asio.Prelude.Outcome.{done}
use linux_stage_asio.Core.Segment.{Segment, empty_segment, contents}
use linux_stage_asio.Net.Message.{Message}
use linux_stage_asio.Net.Header.{Header, IsHeader, header_size, encode}
use linux_stage_asio.Net.Receiver.{
  Receiver, Endpoint, payload_size, mask_missing, checking_mask_off, Request, want, refuse,
  start_receive, receive,
}

abbrev pub segment_of : Bytes → Segment
segment_of body = record { buffer = some body; offset = 0; length = length body }

-- A frame with the message that its receiver is to hand on.
pub record Frame : Type 0 where
  pub header : Header
  pub body : Bytes
  pub message : Message

abbrev pub frame_bytes : Frame → Bytes
frame_bytes f = encode f.header ++ f.body

abbrev pub wire : List Frame → Bytes
wire [] = []
wire (f ∷ fs) = frame_bytes f ++ wire fs

abbrev pub payload_bytes : Option Segment → Bytes
payload_bytes none = []
payload_bytes (some s) = contents s

-- A message as a reader sees it.
abbrev pub view : Message → ℕ × ℕ × Bytes
view m = (m.command_id, m.sequence_no, payload_bytes m.payload)

-- An empty body is handed on as it is, any other one deciphered.
abbrev pub Means : Endpoint → Header → Bytes → Message → Type 0
Means e h [] m = view m ≡ (h.cmd, h.seq, [])
Means e h (b ∷ body) m =
    e.decrypt
      (record { command_id = h.cmd; sequence_no = h.seq; payload = some (segment_of (b ∷ body)) })
      h.compressed
    ≡ done m

-- A frame that the endpoint is bound to take.
pub record Accepts (e : Endpoint) (f : Frame) : Type 0 where
  pub is_header : IsHeader f.header
  pub key : f.header.fk ≡ e.kf
  pub size : payload_size e f.header ≡ length f.body
  pub size_fits : length f.body < 2 ^ 31
  pub masked : (e.verify && mask_missing f.header) ≡ false
  pub checked :
      (e.verify && not (checking_mask_off e (encode f.header) (some (segment_of f.body)))) ≡ false
  pub means : Means e f.header f.body f.message

-- `pre` of the header has arrived.
pub record InHeader (r : Receiver) (pre : Bytes) : Type 0 where
  pub header_phase : r.fhdr ≡ false
  pub at : r.ofs ≡ length pre
  pub short : length pre < header_size
  pub room : length r.phdr ≡ header_size
  pub got : take (length pre) r.phdr ≡ pre
  pub no_payload : (r.payload ≡ none) ⊎ (r.payload ≡ some empty_segment)

-- The header and `pre` of the body have arrived; `buf` is the buffer of the body.
pub record InBody (r : Receiver) (h : Header) (size : ℕ) (buf pre : Bytes) : Type 0 where
  pub body_phase : r.fhdr ≡ true
  pub at : r.ofs ≡ length pre
  pub short : length pre < size
  pub header_is : r.phdr ≡ encode h
  pub buffer_is : r.payload ≡ some (record { buffer = some buf; offset = 0; length = size })
  pub room : length buf ≡ size
  pub got : take (length pre) buf ≡ pre

-- Chunks as the kernel hands them out: not empty, and no longer than `StartReceive` asked for.
abbrev pub Within : Request → ℕ → Type 0
Within (want n) len = (0 < len) × (len ≤ n)
Within (refuse code) len = ⊥

abbrev pub Fits : Endpoint → Receiver → List Bytes → Type 0
Fits e r [] = Unit
Fits e r (c ∷ cs) = Within (start_receive e r) (length c) × Fits e (receive e r c).receiver cs
