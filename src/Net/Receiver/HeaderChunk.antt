-- ===== src/Net/Receiver/HeaderChunk.antt =====
-- A chunk takes a receiver on inside the header of its frame, or past it.
use linux_stage_asio.Prelude.{
  ◌+◌, ◌≤◌, ◌<◌, ◌≡◌, refl, sym, ap, subst, ◌∙◌, inl, inr, true, [], ◌++◌, append-nil, append_assoc,
  arith, leb, Bool-cases, length, get_or, length-append, take-all, length-zero, append-cut,
}
use linux_stage_asio.Prelude.Words.{Bytes}
use linux_stage_asio.Net.Header.{header_size, encode}
use linux_stage_asio.Net.Header.Laws.{length-encode}
use linux_stage_asio.Net.Receiver.{Receiver, Endpoint, header_done, write, receive}
use linux_stage_asio.Net.Receiver.Writes.{length-write, get_or-append}
use linux_stage_asio.Net.Receiver.Frames.{Frame, Accepts, InHeader, frame_bytes}
use linux_stage_asio.Net.Receiver.HeaderStep.{counted, receive-header, counted-InHeader, stored}
use linux_stage_asio.Net.Receiver.Progress.{in_header, Advances, header_done-Advances}

module _ (e : Endpoint) (f : Frame) (a : Accepts e f) where
  -- A chunk inside the header.
  module _ (r : Receiver) (pre chunk rest : Bytes) (v : InHeader r pre)
      (cut : pre ++ (chunk ++ rest) ≡ frame_bytes f) (pos : 0 < length chunk)
      (inside : length pre + length chunk ≤ header_size) where
    joined : (pre ++ chunk) ++ rest ≡ frame_bytes f
    joined = append_assoc pre chunk rest ∙ cut

    key : get_or (pre ++ chunk) 0 0 ≡ e.kf
    unfolding encode
    key = ground (
      arith,
      get_or-append (pre ++ chunk) rest 0 (omega (arith, length-append pre chunk)),
      joined,
      a.key,
      a.is_header.fk_fits,
    )

    front : (zs : Bytes) × (encode f.header ≡ (pre ++ chunk) ++ zs) × (rest ≡ zs ++ f.body)
    front =
        append-cut (pre ++ chunk) rest (encode f.header) f.body joined
          (omega (arith, length-append pre chunk, length-encode f.header))

    module _ (full : leb header_size (length pre + length chunk) ≡ true) where
      exact : (encode f.header ≡ pre ++ chunk) × (rest ≡ f.body)
      exact =
          let nothing_left : front.0 ≡ [] = length-zero front.0 (
            ground (
              arith,
              ap length front.1,
              length-append (pre ++ chunk) front.0,
              length-append pre chunk,
              length-encode f.header,
            )) in
          (
            front.1 ∙ ap (◌++◌ (pre ++ chunk)) nothing_left ∙ append-nil (pre ++ chunk),
            front.2 ∙ ap (λ t. t ++ f.body) nothing_left,
          )

      header_is : write r.phdr (length pre) chunk ≡ encode f.header
      header_is =
          sym (
            take-all (length pre + length chunk) (write r.phdr (length pre) chunk) (
              ground
                (arith, length-write r.phdr (length pre) chunk (omega (arith, v.room)), v.room)))
          ∙ stored e r pre chunk v pos inside key
          ∙ sym exact.0

      complete : Advances (header_done e (counted e r pre chunk v pos inside key)) f rest
      complete =
          subst (Advances (header_done e (counted e r pre chunk v pos inside key)) f) (sym exact.1)
            (header_done-Advances e f a (counted e r pre chunk v pos inside key) header_is f.body
              refl v.no_payload)

    pub header_chunk : Advances (receive e r chunk) f rest
    header_chunk = elim (Bool-cases (leb header_size (length pre + length chunk))) [
      | inl full ↦ rw (receive-header e r pre chunk v pos inside key, full) (complete full)
      | inr more ↦
          rw (receive-header e r pre chunk v pos inside key, more)
            (inr (record {
              is_success = refl;
              nothing = refl;
              pending =
                  in_header (pre ++ chunk)
                    (counted-InHeader e r pre chunk v pos inside key (ground arith)) joined;
            }))
    ]
