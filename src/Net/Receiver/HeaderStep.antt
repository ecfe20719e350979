-- ===== src/Net/Receiver/HeaderStep.antt =====
-- One chunk that arrives inside the header of a frame.
use linux_stage_asio.Prelude.{
  ℕ, ◌+◌, ◌-◌, ◌≤◌, ◌<◌, ◌≡◌, sym, ap, ◌∙◌, ◌++◌, arith, leb, if◌then◌else◌, length, get_or, take,
  length-append,
}
use linux_stage_asio.Prelude.Words.{Bytes}
use linux_stage_asio.Net.Header.{header_size, decode}
use linux_stage_asio.Net.Receiver.{
  Receiver, Endpoint, start_receive, want, receive, arrive, process_receive, write, stay, success,
  header_done,
}
use linux_stage_asio.Net.Receiver.Writes.{length-write, take-write, get_or-take}
use linux_stage_asio.Net.Receiver.Frames.{InHeader, Within}

-- The header phase asks for the rest of the header.
pub start_receive-header :
    (e : Endpoint) (r : Receiver) (pre : Bytes)
    → InHeader r pre
    → start_receive e r ≡ want (header_size - length pre)
unfolding start_receive
start_receive-header e r pre v = ground arith

-- The header phase asks for no more than the rest of the header.
pub header_request :
    (e : Endpoint) (r : Receiver) (pre : Bytes) (len : ℕ)
    → InHeader r pre
    → Within (start_receive e r) len
    → (0 < len) × (length pre + len ≤ header_size)
unfolding start_receive
header_request e r pre len v w = ground arith

module _ (e : Endpoint) (r : Receiver) (pre chunk : Bytes) (v : InHeader r pre)
    (some_bytes : 0 < length chunk) (inside : length pre + length chunk ≤ header_size)
    (key : get_or (pre ++ chunk) 0 0 ≡ e.kf) where
  -- The receiver with the chunk stored and counted.
  abbrev pub counted : Receiver
  counted = record r { phdr = write r.phdr (length pre) chunk; ofs = length pre + length chunk }

  pub stored : take (length pre + length chunk) (write r.phdr (length pre) chunk) ≡ pre ++ chunk
  stored =
      take-write r.phdr (length pre) chunk (omega (arith, v.room, v.short))
      ∙ ap (λ t. t ++ chunk) v.got

  arrived_key : (decode (write r.phdr (length pre) chunk)).fk ≡ e.kf
  unfolding decode
  arrived_key =
      sym
        (get_or-take (write r.phdr (length pre) chunk) (length pre + length chunk) 0 (omega arith))
      ∙ ap (λ t. get_or t 0 0) stored
      ∙ key

  pub receive-header : receive e r chunk ≡ (
      if leb header_size (length pre + length chunk)
      then header_done e counted
      else stay success counted)
  unfolding receive arrive process_receive
  receive-header = ground (arith, arrived_key, v.at, v.header_phase)

  pub counted-InHeader : length pre + length chunk < header_size → InHeader counted (pre ++ chunk)
  counted-InHeader h = record {
    header_phase = v.header_phase;
    at = omega (arith, length-append pre chunk);
    short = omega (arith, length-append pre chunk);
    room = length-write r.phdr (length pre) chunk (omega (arith, v.room)) ∙ v.room;
    got = ap (λ n. take n (write r.phdr (length pre) chunk)) (length-append pre chunk) ∙ stored;
    no_payload = v.no_payload;
  }
