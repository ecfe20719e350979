-- ===== src/Net/Receiver/BodyStep.antt =====
-- One chunk that arrives inside the body of a frame.
use linux_stage_asio.Prelude.{
  ℕ, ◌+◌, ◌-◌, ◌^◌, ◌≤◌, ◌<◌, ◌≡◌, refl, ap, subst, ◌∙◌, false, ◌&&◌, some, ◌++◌, arith, leb,
  if◌then◌else◌, length, take, length-append,
}
use linux_stage_asio.Prelude.Words.{Bytes}
use linux_stage_asio.Core.Segment.{unsafe_addr}
use linux_stage_asio.Net.Header.{Header, decode}
use linux_stage_asio.Net.Receiver.{
  Receiver, Endpoint, payload_size, mask_missing, start_receive, receive, arrive, process_receive,
  write, stay, success, finish, want, capped,
}
use linux_stage_asio.Net.Receiver.Writes.{length-write, take-write}
use linux_stage_asio.Net.Receiver.Frames.{InBody, Within}

module _ (e : Endpoint) (r : Receiver) (h : Header) (size : ℕ) (buf pre : Bytes)
    (v : InBody r h size buf pre) (decoded : decode r.phdr ≡ h) (size_is : payload_size e h ≡ size)
    (fits : size < 2 ^ 31) where
  announced : payload_size e (decode r.phdr) ≡ size
  announced = ap (payload_size e) decoded ∙ size_is

  -- The body phase asks for the rest of the body, up to the segment size.
  pub start_receive-body : start_receive e r ≡ want (capped (size - length pre))
  unfolding start_receive unsafe_addr
  start_receive-body = ground (arith, v.body_phase, v.buffer_is, announced, v.at, v.short)

  pub body_request :
      (len : ℕ) → Within (start_receive e r) len → (0 < len) × (length pre + len ≤ size)
  body_request len w =
      let within : Within (want (capped (size - length pre))) len =
        subst (λ q. Within q len) start_receive-body w in
      ground (arith, v.short)

-- The receiver with the chunk stored and counted.
abbrev pub filled : Receiver → ℕ → Bytes → Bytes → Bytes → Receiver
filled r size buf pre chunk = record r {
  payload =
      some (record { buffer = some (write buf (length pre) chunk); offset = 0; length = size });
  ofs = length pre + length chunk;
}

module _ (e : Endpoint) (r : Receiver) (h : Header) (size : ℕ) (buf pre chunk : Bytes)
    (v : InBody r h size buf pre) (decoded : decode r.phdr ≡ h) (size_is : payload_size e h ≡ size)
    (fits : size < 2 ^ 31) (unmasked : (e.verify && mask_missing h) ≡ false)
    (some_bytes : 0 < length chunk) (inside : length pre + length chunk ≤ size) where
  pub stored : take (length pre + length chunk) (write buf (length pre) chunk) ≡ pre ++ chunk
  stored =
      take-write buf (length pre) chunk (omega (arith, v.room, v.short))
      ∙ ap (λ t. t ++ chunk) v.got

  arrived : arrive r chunk ≡ record (filled r size buf pre chunk) { ofs = length pre }
  unfolding arrive
  arrived = ground (arith, v.body_phase, v.buffer_is, v.at)

  processed :
      process_receive e
        (record (filled r size buf pre chunk) { ofs = length pre })
        false
        (length chunk)
      ≡ (if leb size (length pre + length chunk)
          then finish e (filled r size buf pre chunk)
          else stay success (filled r size buf pre chunk))
  unfolding process_receive
  processed = rw (decoded, unmasked) (ground (arith, v.body_phase))

  pub receive-body : receive e r chunk ≡ (
      if leb size (length pre + length chunk)
      then finish e (filled r size buf pre chunk)
      else stay success (filled r size buf pre chunk))
  unfolding receive
  receive-body = ap (λ t. process_receive e t false (length chunk)) arrived ∙ processed

  pub filled-InBody :
      length pre + length chunk < size
      → InBody (filled r size buf pre chunk) h size (write buf (length pre) chunk) (pre ++ chunk)
  filled-InBody s = record {
    body_phase = v.body_phase;
    at = omega (arith, length-append pre chunk);
    short = omega (arith, length-append pre chunk);
    header_is = v.header_is;
    buffer_is = refl;
    room = length-write buf (length pre) chunk (omega (arith, v.room)) ∙ v.room;
    got = ap (λ n. take n (write buf (length pre) chunk)) (length-append pre chunk) ∙ stored;
  }
