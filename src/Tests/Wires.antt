-- ===== src/Tests/Wires.antt =====
-- Headers, frames, routed and bulk messages, on concrete values.
use linux_stage_asio.Prelude.{
  ℕ, ◌+◌, ◌≤◌, ◌<◌, ◌≡◌, ◌≢◌, refl, inl, true, false, none, some, List, [], ◌∷◌, ◌++◌, arith,
  length, replicate,
}
use linux_stage_asio.Prelude.Words.{Bytes}
use linux_stage_asio.Prelude.Outcome.{done, refused}
use linux_stage_asio.Core.Segment.{Segment, reset}
use linux_stage_asio.Net.Message.{Message}
use linux_stage_asio.Net.Header.{Header, IsHeader, encode, decode}
use linux_stage_asio.Net.Header.Laws.{decode-encode}
use linux_stage_asio.Net.Checksum.{mask_off32}
use linux_stage_asio.Net.Checksum.Laws.{IsFolded, word_sum, mask_off32-IsFolded}
use linux_stage_asio.Net.Receiver.{Endpoint, fresh, start_receive, want, mss}
use linux_stage_asio.Net.Receiver.Frames.{Frame, Accepts, segment_of}
use linux_stage_asio.Net.Receiver.Progress.{in_header}
use linux_stage_asio.Net.Receiver.Stream.{Awaits, start_receive-Awaits}
use linux_stage_asio.Net.Route
use linux_stage_asio.Net.Route.{Route}
use linux_stage_asio.Net.Route.RoundTrip
use linux_stage_asio.Net.Route.RoundTrip.{IsRoute, load-to_array}
use linux_stage_asio.Net.Route.Slices.{Sliced, load-Sliced, to_packet_long_name}
use linux_stage_asio.Net.Bulk
use linux_stage_asio.Net.Bulk.{Bulk, bulk_body}
use linux_stage_asio.Net.Bulk.RoundTrip.{
  IsBulk, received, load-to_packet, load-to_packet_no_members,
}

abbrev a_header : Header
a_header = record { fk = 0x2a; len = 2; cmd = 0x7e92; compressed = false; seq = 9 }

a_header-IsHeader : IsHeader a_header
a_header-IsHeader = record {
  fk_fits = omega arith;
  len_fits = omega arith;
  cmd_fits = omega arith;
  seq_fits = omega arith;
}

decode-encode_example : decode (encode a_header ++ 7 ∷ []) ≡ a_header
decode-encode_example = decode-encode a_header (7 ∷ []) a_header-IsHeader

mask_off32-IsFolded_example :
    IsFolded (5 + word_sum (255 ∷ 254 ∷ 3 ∷ [])) (mask_off32 (255 ∷ 254 ∷ 3 ∷ []) 5)
mask_off32-IsFolded_example =
    mask_off32-IsFolded (255 ∷ 254 ∷ 3 ∷ []) 5 (omega arith, (omega arith, (omega arith, tt)))
      (omega arith) (omega arith)

-- An endpoint that deciphers nothing.
abbrev plain_end : Endpoint
plain_end = record { kf = 0x2a; verify = false; decrypt = λ m compressed. done m }

abbrev a_message : Message
a_message = record {
  command_id = 0x7e92;
  sequence_no = 9;
  payload = some (segment_of (65 ∷ 66 ∷ []));
}

abbrev a_frame : Frame
a_frame = record { header = a_header; body = 65 ∷ 66 ∷ []; message = a_message }

a_frame-Accepts : Accepts plain_end a_frame
a_frame-Accepts = record {
  is_header = a_header-IsHeader;
  key = refl;
  size = refl;
  size_fits = omega arith;
  masked = refl;
  checked = refl;
  means = refl;
}

abbrev pieces : List Bytes
pieces = (42 ∷ 2 ∷ 0 ∷ 0 ∷ 0 ∷ 146 ∷ 126 ∷ 9 ∷ 0 ∷ 0 ∷ 0 ∷ []) ∷ (65 ∷ []) ∷ []

fresh-Awaits : Awaits fresh (a_frame ∷ []) (encode a_header ++ 65 ∷ 66 ∷ [])
unfolding fresh encode
fresh-Awaits = (
  encode a_header ++ 65 ∷ 66 ∷ [],
  in_header []
      (record {
        header_phase = refl;
        at = refl;
        short = omega arith;
        room = refl;
        got = refl;
        no_payload = inl refl;
      })
      refl,
  refl,
)

start_receive-Awaits_example :
    (n : ℕ) × (start_receive plain_end fresh ≡ want n)
    × (0 < n)
    × (n ≤ mss)
    × (n ≤ length (encode a_header ++ 65 ∷ 66 ∷ []))
start_receive-Awaits_example =
    start_receive-Awaits plain_end fresh a_frame [] (encode a_header ++ 65 ∷ 66 ∷ [])
      a_frame-Accepts fresh-Awaits

abbrev a_route : Route
a_route = record {
  command_id = 0x7e92;
  sequence_no = 1;
  link_type = 4;
  server_no = 2;
  platform = 112 ∷ 99 ∷ [];
  payload = some (segment_of (65 ∷ 66 ∷ []));
}

a_route-IsRoute : IsRoute a_route
a_route-IsRoute = record {
  command_fits = omega arith;
  sequence_fits = omega arith;
  link_fits = omega arith;
  server_fits = omega arith;
  name_fits = omega arith;
  body = 65 ∷ 66 ∷ [];
  payload_is = inl refl;
  body_fits = omega arith;
}

load-to_array_example :
    (size : ℕ) × (block : Bytes) × (loaded : Route) × (Route.size_of a_route ≡ done size)
    × (Route.to_array a_route size ≡ done block)
    × (length block ≡ size)
    × (Route.load Route.cleared (some (record { buffer = some block; offset = 0; length = size }))
        ≡ done (true, loaded))
    × (RoundTrip.fields loaded ≡ RoundTrip.fields a_route)
load-to_array_example = load-to_array Route.cleared a_route a_route-IsRoute

-- A packet that holds a route to server 2 with the name `pc` and one byte of payload, behind one
-- byte of something else.
abbrev a_packet : Bytes
a_packet = 0 ∷ 146 ∷ 126 ∷ 1 ∷ 0 ∷ 0 ∷ 0 ∷ 4 ∷ 2 ∷ 0 ∷ 2 ∷ 112 ∷ 99 ∷ 65 ∷ []

abbrev a_slice : Segment
a_slice = record { buffer = some a_packet; offset = 1; length = 13 }

abbrev a_loaded : Route
a_loaded = record {
  command_id = 0x7e92;
  sequence_no = 1;
  link_type = 4;
  server_no = 2;
  platform = 112 ∷ 99 ∷ [];
  payload = some (record { buffer = some a_packet; offset = 13; length = 1 });
}

a_slice-loads : Route.load Route.cleared (some a_slice) ≡ done (true, a_loaded)
unfolding linux_stage_asio.Net.Route.load linux_stage_asio.Net.Route.load_packet reset
a_slice-loads = refl

load-Sliced_example : Sliced a_slice a_loaded
load-Sliced_example =
    load-Sliced Route.cleared a_loaded a_slice a_packet refl (omega arith) (omega arith)
      a_slice-loads

abbrev long_route : Route
long_route = record Route.cleared { platform = replicate 256 97 }

long_route-size : Route.size_of long_route ≡ done 266
unfolding linux_stage_asio.Net.Route.size_of
long_route-size = refl

to_packet_long_name_example : Route.to_packet long_route 0x2a 0x7e93 1 ≡ refused
to_packet_long_name_example =
    to_packet_long_name long_route 0x2a 0x7e93 1 266 (omega arith) long_route-size

abbrev a_bulk : Bulk
a_bulk = record {
  kf = 0x2a;
  command_id = 0x7e92;
  sequence_no = 1;
  member_type = 4;
  member = some (5 ∷ 0 ∷ 6 ∷ 0 ∷ []);
  member_count = 2;
  payload_ptr = some (65 ∷ []);
  payload_size = 1;
}

a_bulk-IsBulk : IsBulk a_bulk
a_bulk-IsBulk = record {
  type_fits = omega arith;
  count_fits = omega arith;
  members = 5 ∷ 0 ∷ 6 ∷ 0 ∷ [];
  body = 65 ∷ [];
  member_is = refl;
  payload_is = refl;
  members_there = refl;
  body_there = refl;
  size_fits = omega arith;
}

load-to_packet_example :
    (header : Header) × (loaded : Bulk) × (Bulk.to_packet a_bulk
      ≡ done (encode header ++ bulk_body a_bulk))
    × (header.len ≡ length (bulk_body a_bulk))
    × (Bulk.load Bulk.cleared (received a_bulk) ≡ (true, loaded))
    × (linux_stage_asio.Net.Bulk.RoundTrip.fields loaded
        ≡ linux_stage_asio.Net.Bulk.RoundTrip.fields a_bulk)
load-to_packet_example = load-to_packet Bulk.cleared a_bulk a_bulk-IsBulk (omega arith)

abbrev no_members : Bulk
no_members = record a_bulk { member = none; member_count = 0 }

load-to_packet_no_members_example :
    (header : Header) × (loaded : Bulk) × (Bulk.to_packet no_members
      ≡ done (encode header ++ 4 ∷ 0 ∷ 0 ∷ 65 ∷ []))
    × (header.len ≡ 4)
    × (Bulk.load Bulk.cleared (received no_members) ≡ (true, loaded))
    × (linux_stage_asio.Net.Bulk.RoundTrip.fields loaded ≡ (0x7e92, 1, 0, 0, [], []))
    × (linux_stage_asio.Net.Bulk.RoundTrip.fields loaded
        ≢ linux_stage_asio.Net.Bulk.RoundTrip.fields no_members)
load-to_packet_no_members_example =
    load-to_packet_no_members Bulk.cleared no_members (65 ∷ []) refl refl refl (omega arith)
      (omega arith)
