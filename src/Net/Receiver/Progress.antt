-- ===== src/Net/Receiver/Progress.antt =====
-- Where a receiver is in a frame, and what the end of the header does.
use linux_stage_asio.Prelude.{
  ℕ, ◌^◌, ◌<◌, ◌≡◌, refl, ap, subst, ◌∙◌, ◌⊎◌, inl, inr, true, false, ◌&&◌, not, none, some, [],
  ◌∷◌, ◌++◌, arith, length, replicate, length-append, length-replicate,
}
use linux_stage_asio.Prelude.Words.{Bytes}
use linux_stage_asio.Core.Segment.{empty_segment, reset}
use linux_stage_asio.Net.Header.{Header, encode, decode}
use linux_stage_asio.Net.Header.Laws.{length-encode}
use linux_stage_asio.Net.Receiver.{
  Receiver, Endpoint, payload_size, mask_missing, checking_mask_off, stay, Step, success,
  header_done, finish,
}
use linux_stage_asio.Net.Receiver.Frames.{
  Frame, Accepts, InHeader, InBody, segment_of, Means, frame_bytes,
}
use linux_stage_asio.Net.Receiver.Completion.{Finished, finish_empty, decode_encoded}

-- `rest` of the frame is still to come.
pub data Pending (r : Receiver) (f : Frame) (rest : Bytes) : Type 0 where
  in_header : (pre : Bytes) → InHeader r pre → pre ++ rest ≡ frame_bytes f → Pending r f rest
  in_body :
      (buf pre : Bytes)
      → InBody r f.header (length f.body) buf pre
      → pre ++ rest ≡ f.body
      → Pending r f rest

-- A pending frame has bytes to come.
pub Pending-length : {r : Receiver} {f : Frame} {rest : Bytes} → Pending r f rest → 0 < length rest
Pending-length {f = f} {rest} (in_header pre v e) = omega (
  arith,
  ap length e,
  length-append pre rest,
  v.short,
  length-append (encode f.header) f.body,
  length-encode f.header,
)
Pending-length {rest = rest} (in_body buf pre v e) =
    omega (arith, ap length e, length-append pre rest, v.short)

-- The step goes on inside the frame and hands nothing on.
pub record Continues (s : Step) (f : Frame) (rest : Bytes) : Type 0 where
  pub is_success : s.status ≡ success
  pub nothing : s.delivered ≡ none
  pub pending : Pending s.receiver f rest

abbrev pub Advances : Step → Frame → Bytes → Type 0
Advances s f rest = (Finished s f.message × (rest ≡ [])) ⊎ Continues s f rest

-- The receiver that `header_done` leaves when a body of `size` bytes is announced.
abbrev body_awaited : Receiver → ℕ → Receiver
body_awaited r size = record r {
  ofs = 0;
  fhdr = true;
  payload = some (record { buffer = some (replicate size 0); offset = 0; length = size });
}

header_done_body :
    (e : Endpoint) (r : Receiver) (size : ℕ)
    → payload_size e (decode r.phdr) ≡ size
    → 0 < size
    → size < 2 ^ 31
    → (e.verify && mask_missing (decode r.phdr)) ≡ false
    → header_done e r ≡ stay success (body_awaited r size)
unfolding header_done reset
header_done_body e r size p pos fits m = rw m (rw p (ground arith))

header_done_empty :
    (e : Endpoint) (r : Receiver)
    → payload_size e (decode r.phdr) ≡ 0
    → (e.verify && mask_missing (decode r.phdr)) ≡ false
    → header_done e r ≡ finish e (record r { ofs = 0; fhdr = true })
unfolding header_done
header_done_empty e r p m = rw m (rw p refl)

body_awaited-InBody :
    (r : Receiver) (h : Header) (size : ℕ)
    → r.phdr ≡ encode h
    → 0 < size
    → InBody (body_awaited r size) h size (replicate size 0) []
body_awaited-InBody r h size header_is pos = record {
  body_phase = refl;
  at = refl;
  short = pos;
  header_is = header_is;
  buffer_is = refl;
  room = length-replicate size 0;
  got = refl;
}

module _ (e : Endpoint) (f : Frame) (a : Accepts e f) where
  module _ (r : Receiver) (header_is : r.phdr ≡ encode f.header) where
    pub decoded : decode r.phdr ≡ f.header
    decoded = ap decode header_is ∙ decode_encoded f.header a.is_header

    -- A complete header ends an empty frame, and asks for the body of any other one.
    pub header_done-Advances :
        (body : Bytes)
        → f.body ≡ body
        → (r.payload ≡ none) ⊎ (r.payload ≡ some empty_segment)
        → Advances (header_done e r) f f.body
    header_done-Advances [] is no_payload = inl (rw done finished, is)
      where
        r' : Receiver
        r' = record r { ofs = 0; fhdr = true }

        done : header_done e r ≡ finish e r'
        done = header_done_empty e r (rw decoded (a.size ∙ ap length is)) (rw decoded a.masked)

        finished : Finished (finish e r') f.message
        finished =
            finish_empty e r' f.header a.is_header header_is f.message (a.size ∙ ap length is)
              (subst
                (λ t.
                  (e.verify && not (checking_mask_off e (encode f.header) (some (segment_of t))))
                  ≡ false)
                is a.checked)
              (subst (λ t. Means e f.header t f.message) is a.means) no_payload
    header_done-Advances (b ∷ body) is no_payload = inr (record {
      is_success = ap (λ s. s.status) done;
      nothing = ap (λ s. s.delivered) done;
      pending = rw done (
          in_body (replicate (length f.body) 0) []
            (body_awaited-InBody r f.header (length f.body) header_is pos) refl);
    })
      where
        pos : 0 < length f.body
        pos = omega (arith, ap length is)

        done : header_done e r ≡ stay success (body_awaited r (length f.body))
        done =
            header_done_body e r (length f.body) (rw decoded a.size) pos a.size_fits
              (rw decoded a.masked)
