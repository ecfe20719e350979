-- ===== src/Net/Receiver/BodyChunk.antt =====
-- A chunk takes a receiver on inside the body of its frame, or to the end of it.
use linux_stage_asio.Prelude.{
  ◌+◌, ◌≤◌, ◌<◌, ◌≡◌, refl, sym, ap, ◌∙◌, inl, inr, true, some, [], ◌++◌, append-nil, append_assoc,
  arith, leb, if◌then◌else◌, Bool-cases, length, length-append, take-all, length-zero,
}
use linux_stage_asio.Prelude.Words.{Bytes}
use linux_stage_asio.Net.Header.{decode}
use linux_stage_asio.Net.Receiver.{Receiver, Endpoint, stay, success, finish, write, receive}
use linux_stage_asio.Net.Receiver.Writes.{length-write}
use linux_stage_asio.Net.Receiver.Frames.{Frame, Accepts, InBody}
use linux_stage_asio.Net.Receiver.BodyStep.{filled, receive-body, filled-InBody, stored}
use linux_stage_asio.Net.Receiver.Completion.{Finished, finish_body}
use linux_stage_asio.Net.Receiver.Progress.{in_body, Advances, decoded}

module _ (e : Endpoint) (f : Frame) (a : Accepts e f) where
  -- A chunk inside the body.
  module _ (r : Receiver) (buf pre chunk rest : Bytes)
      (v : InBody r f.header (length f.body) buf pre) (cut : pre ++ (chunk ++ rest) ≡ f.body)
      (pos : 0 < length chunk) where
    decoded_body : decode r.phdr ≡ f.header
    decoded_body = decoded e f a r v.header_is

    inside_body : length pre + length chunk ≤ length f.body
    inside_body =
        omega (arith, ap length cut, length-append pre (chunk ++ rest), length-append chunk rest)

    stepped : receive e r chunk ≡ (
        if leb (length f.body) (length pre + length chunk)
        then finish e (filled r (length f.body) buf pre chunk)
        else stay success (filled r (length f.body) buf pre chunk))
    stepped =
        receive-body e r f.header (length f.body) buf pre chunk v decoded_body a.size a.size_fits
          a.masked pos inside_body

    module _ (full : leb (length f.body) (length pre + length chunk) ≡ true) where
      last : rest ≡ []
      last = length-zero rest (
          ground
            (arith, ap length cut, length-append pre (chunk ++ rest), length-append chunk rest))

      body_is : write buf (length pre) chunk ≡ f.body
      body_is =
          sym (
            take-all (length pre + length chunk) (write buf (length pre) chunk) (
              ground (
                arith,
                length-write buf (length pre) chunk (omega (arith, v.room, inside_body)),
                v.room,
              )))
          ∙ stored e r f.header (length f.body) buf pre chunk v decoded_body a.size a.size_fits
              a.masked pos inside_body
          ∙ sym (append-nil (pre ++ chunk))
          ∙ append_assoc pre chunk []
          ∙ ap (λ t. pre ++ (chunk ++ t)) (sym last)
          ∙ cut

      complete : Finished (finish e (filled r (length f.body) buf pre chunk)) f.message
      complete =
          finish_body e (filled r (length f.body) buf pre chunk) f.header a.is_header v.header_is
            f.body f.message (omega (arith, v.short)) a.checked a.means
            (ap (λ t. some (record { buffer = some t; offset = 0; length = length f.body }))
              body_is)

    pub body_chunk : Advances (receive e r chunk) f rest
    body_chunk = elim (Bool-cases (leb (length f.body) (length pre + length chunk))) [
      | inl full ↦ rw (stepped, full) (inl (complete full, last full))
      | inr more ↦
          rw (stepped, more)
            (inr (record {
              is_success = refl;
              nothing = refl;
              pending =
                  in_body (write buf (length pre) chunk) (pre ++ chunk)
                    (filled-InBody e r f.header (length f.body) buf pre chunk v decoded_body a.size
                      a.size_fits a.masked pos inside_body (ground arith))
                    (append_assoc pre chunk rest ∙ cut);
            }))
    ]
