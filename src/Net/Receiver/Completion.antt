-- ===== src/Net/Receiver/Completion.antt =====
-- The end of a frame: its header complete, and its message complete.
use linux_stage_asio.Prelude.{
  ◌<◌, ◌≡◌, refl, sym, ap, ◌∙◌, ◌⊎◌, inl, inr, false, ◌&&◌, not, Option, none, some, [], ◌∷◌,
  append-nil, arith, ◌==◌, length,
}
use linux_stage_asio.Prelude.Words.{Bytes}
use linux_stage_asio.Prelude.Outcome.{done}
use linux_stage_asio.Core.Segment.{Segment, empty_segment, contents}
use linux_stage_asio.Net.Message.{Message}
use linux_stage_asio.Net.Header.{Header, IsHeader, header_size, encode, decode}
use linux_stage_asio.Net.Header.Laws.{decode-encode, length-encode}
use linux_stage_asio.Net.Receiver.{
  Receiver, Endpoint, payload_size, checking_mask_off, Step, success, finish, emptied,
}
use linux_stage_asio.Net.Receiver.Frames.{InHeader, view, segment_of, Means, payload_bytes}

pub decode_encoded : (h : Header) → IsHeader h → decode (encode h) ≡ h
decode_encoded h v = ap decode (sym (append-nil (encode h))) ∙ decode-encode h [] v

-- A step that ends a frame: the message of the frame is handed on, and the receiver is ready for
-- the next header.
pub record Finished (s : Step) (m : Message) : Type 0 where
  pub is_success : s.status ≡ success
  pub message : Message
  pub delivers : s.delivered ≡ some message
  pub viewed : view message ≡ view m
  pub idle : InHeader s.receiver []

-- With no payload announced, the check does not look at the payload.
checking_empty :
    (e : Endpoint) (phdr : Bytes) (p q : Option Segment)
    → payload_size e (decode phdr) ≡ 0
    → checking_mask_off e phdr p ≡ checking_mask_off e phdr q
unfolding checking_mask_off
checking_empty e phdr p q h = ground arith

-- The two ways in which a complete message is handed on.
abbrev read : Receiver → Message
read r = record {
  command_id = (decode r.phdr).cmd;
  sequence_no = (decode r.phdr).seq;
  payload = r.payload;
}

abbrev handed_on : Receiver → Message → Step
handed_on r m = record {
  status = success;
  receiver = record r { ofs = 0; fhdr = false; payload = emptied r.payload };
  delivered = some m;
}

module _ (e : Endpoint) (r : Receiver)
    (check : (e.verify && not (checking_mask_off e r.phdr r.payload)) ≡ false) where
  finish_plain :
      (r.payload ≡ none) ⊎ (r.payload ≡ some empty_segment) → finish e r ≡ handed_on r (read r)
  unfolding finish
  finish_plain no_payload = ground arith

  finish_deciphered :
      (s : Segment) (m : Message)
      → r.payload ≡ some s
      → (s.length == 0) ≡ false
      → e.decrypt (read r) (decode r.phdr).compressed ≡ done m
      → finish e r ≡ handed_on r m
  unfolding finish
  finish_deciphered s m p n d = ground arith

-- A receiver that has handed a message on waits for a header.
handed_on-idle :
    (r : Receiver)
    → length r.phdr ≡ header_size
    → InHeader (record r { ofs = 0; fhdr = false; payload = emptied r.payload }) []
handed_on-idle r room = record {
  header_phase = refl;
  at = refl;
  short = omega arith;
  room = room;
  got = refl;
  no_payload = emptied-cases r.payload;
}
  where
    emptied-cases : (p : Option Segment) → (emptied p ≡ none) ⊎ (emptied p ≡ some empty_segment)
    emptied-cases none = inl refl
    emptied-cases (some s) = inr refl

payload_bytes-none :
    (p : Option Segment) → (p ≡ none) ⊎ (p ≡ some empty_segment) → payload_bytes p ≡ []
unfolding contents
payload_bytes-none p h = ground arith

module _ (e : Endpoint) (r : Receiver) (h : Header) (is_header : IsHeader h)
    (header_is : r.phdr ≡ encode h) where
  decoded : decode r.phdr ≡ h
  decoded = ap decode header_is ∙ decode_encoded h is_header

  room : length r.phdr ≡ header_size
  room = ap length header_is ∙ length-encode h

  -- The message of an empty frame is handed on as it is.
  pub finish_empty :
      (m : Message)
      → payload_size e h ≡ 0
      → (e.verify && not (checking_mask_off e (encode h) (some (segment_of [])))) ≡ false
      → view m ≡ (h.cmd, h.seq, [])
      → (r.payload ≡ none) ⊎ (r.payload ≡ some empty_segment)
      → Finished (finish e r) m
  finish_empty m size check means no_payload = record {
    is_success = ap (λ s. s.status) finished;
    message = read r;
    delivers = ap (λ s. s.delivered) finished;
    viewed = ground (arith, decoded, means, payload_bytes-none r.payload no_payload);
    idle = rw finished (handed_on-idle r room);
  }
    where
      same :
          checking_mask_off e r.phdr r.payload
          ≡ checking_mask_off e (encode h) (some (segment_of []))
      same =
          checking_empty e r.phdr r.payload (some (segment_of [])) (rw decoded size)
          ∙ ap (λ p. checking_mask_off e p (some (segment_of []))) header_is

      finished : finish e r ≡ handed_on r (read r)
      finished = finish_plain e r (rw same check) no_payload

  -- A message with a body is deciphered.
  pub finish_body :
      (body : Bytes) (m : Message)
      → 0 < length body
      → (e.verify && not (checking_mask_off e (encode h) (some (segment_of body)))) ≡ false
      → Means e h body m
      → r.payload ≡ some (segment_of body)
      → Finished (finish e r) m
  finish_body [] m some_body check means payload = absurd (omega arith)
  finish_body (b ∷ body) m some_body check means payload = record {
    is_success = ap (λ s. s.status) finished;
    message = m;
    delivers = ap (λ s. s.delivered) finished;
    viewed = refl;
    idle = rw finished (handed_on-idle r room);
  }
    where
      finished : finish e r ≡ handed_on r m
      finished =
          finish_deciphered e r (rw (header_is, payload) check) (segment_of (b ∷ body)) m payload
            (ground arith) (rw (decoded, payload) means)
