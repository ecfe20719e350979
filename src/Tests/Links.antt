-- ===== src/Tests/Links.antt =====
-- A handshake and a message behind it, on concrete values.
use linux_stage_asio.Prelude.{
  ◌≡◌, refl, inl, true, false, none, some, List, [], ◌∷◌, flatten, arith,
}
use linux_stage_asio.Prelude.Words.{Bytes}
use linux_stage_asio.Prelude.Outcome.{done}
use linux_stage_asio.Core.Segment.{contents, unsafe_addr, reset}
use linux_stage_asio.Net.Message.{Message}
use linux_stage_asio.Net.Header.{encode, decode}
use linux_stage_asio.Net.Receiver.{
  process_receive, Receiver, Endpoint, pump, fresh, receive, start_receive, arrive, receive_header,
  receive_payload, header_done, finish, request_header, request_payload,
}
use linux_stage_asio.Net.Receiver.Frames.{Fits, segment_of}
use linux_stage_asio.Net.Packet.{send_all, to_packet, to_packet_raw}
use linux_stage_asio.Net.Packet.Framing.{Sendable, Matched}
use linux_stage_asio.Net.Packet.Delivery.{send_all_done}
use linux_stage_asio.Stage.Gzip.{Zlib, IsZlib, compress}
use linux_stage_asio.Stage.Codec.{
  Link, contains, compress_step, decipher_step, encrypt_message, decrypt_message,
}
use linux_stage_asio.Stage.Codec.Matching.{sender_of, endpoint_of, body_limit, Link-Matched}
use linux_stage_asio.Stage.Authentication.{Request}
use linux_stage_asio.Stage.Authentication.RoundTrip.{IsRequest}
use linux_stage_asio.Stage.Session.{Host}
use linux_stage_asio.Stage.Session.Handshake.{Accepting}
use linux_stage_asio.Cipher.Rc4.{rc4_crypt, rc4_sbox, init_from, mix, crypt_byte, crypt_from}

-- A compression that only puts a byte in front.
abbrev pub plain_zlib : Zlib
plain_zlib = record {
  deflate = λ b. 0 ∷ b;
  inflate = λ b. elim b [ [] ↦ none | _ ∷ rest ↦ some rest ];
}

pub plain_zlib-IsZlib : IsZlib plain_zlib
plain_zlib-IsZlib = record {
  inflate-deflate = λ b v. refl;
  deflate-length = λ b. omega arith;
  deflate-IsBytes = λ b v. (omega arith, v);
}

abbrev pub welcoming : Host
welcoming = record {
  authenticate = λ r. (0, some 5);
  answer_heartbeat = λ m. 0;
  accept_open = true;
  accept_message = λ m. true;
  send_ok = λ e. true;
  new_key = 11 ∷ 22 ∷ [];
  new_subtract = 3;
  new_mod_vt = 7;
}

abbrev pub a_request : Request
a_request = record {
  svr_area_no = 1;
  server_no = 2;
  platform = some (112 ∷ 99 ∷ []);
  link_type = 4;
  max_fd = 100;
}

pub a_request-IsRequest : IsRequest a_request
a_request-IsRequest = record {
  svr_area_no_fits = omega arith;
  server_no_fits = omega arith;
  platform_fits = omega arith;
  link_type_fits = omega arith;
  max_fd_fits = omega arith;
}

pub welcoming-Accepting : Accepting welcoming a_request 5
welcoming-Accepting = record {
  platform = 112 ∷ 99 ∷ [];
  named = refl;
  grants = refl;
  opens = refl;
  writes = λ e. refl;
  key_fits = omega arith;
}

abbrev pub a_message : Message
a_message = record {
  command_id = 0x7e92;
  sequence_no = 9;
  payload = some (segment_of (10 ∷ 20 ∷ 30 ∷ []));
}

pub a_message-Sendable : Sendable body_limit a_message
a_message-Sendable = record {
  cmd_fits = omega arith;
  seq_fits = omega arith;
  body = 10 ∷ 20 ∷ 30 ∷ [];
  payload_is = inl refl;
  body_fits = omega arith;
  body_bytes = (omega arith, (omega arith, (omega arith, tt)));
}

-- The bytes of the message, in the pieces in which they arrive.
abbrev pub pieces : List Bytes
pieces =
    (42 ∷ 3 ∷ 0 ∷ 0 ∷ []) ∷ (0 ∷ 146 ∷ 126 ∷ 9 ∷ 0 ∷ 0 ∷ 0 ∷ []) ∷ (6 ∷ 17 ∷ []) ∷ (21 ∷ []) ∷ []

abbrev pub a_link : Link
a_link = record {
  transparent = false;
  transparent_protocol = 0x7e8e ∷ 0x7e8f ∷ [];
  compressed_messages = true;
  key = 11 ∷ 22 ∷ [];
  mod_vt = 7;
  subtract = 3;
}

Link-Matched_example :
    Matched body_limit (sender_of plain_zlib a_link 0x2a) (endpoint_of plain_zlib a_link 0x2a false)
Link-Matched_example =
    Link-Matched plain_zlib a_link 0x2a plain_zlib-IsZlib (omega arith) (omega arith) (omega arith)

abbrev pub an_end : Endpoint
an_end = endpoint_of plain_zlib a_link 0x2a false

pub link_pieces-sent :
    send_all (sender_of plain_zlib a_link 0x2a) (a_message ∷ []) ≡ done (flatten pieces)
unfolding contents unsafe_addr send_all to_packet to_packet_raw encrypt_message contains
    compress_step compress rc4_crypt rc4_sbox init_from mix crypt_byte crypt_from encode
    mathlib.Core.List.flatten
link_pieces-sent = refl

pub link_pieces-Fits : Fits an_end fresh pieces
unfolding contents unsafe_addr send_all to_packet to_packet_raw encrypt_message contains
    compress_step compress rc4_crypt rc4_sbox init_from mix crypt_byte crypt_from encode pump fresh
    receive process_receive receive_header receive_payload header_done finish start_receive
    request_header request_payload arrive reset decode decrypt_message decipher_step
link_pieces-Fits = (
  (omega arith, omega arith),
  ((omega arith, omega arith), ((omega arith, omega arith), ((omega arith, omega arith), tt))),
)

-- The receiver behind the first message
abbrev pub second : Receiver
second = (pump an_end fresh pieces).2

pub second-pieces-Fits : Fits an_end second pieces
unfolding contents unsafe_addr send_all to_packet to_packet_raw encrypt_message contains
    compress_step compress rc4_crypt rc4_sbox init_from mix crypt_byte crypt_from encode pump fresh
    receive process_receive receive_header receive_payload header_done finish start_receive
    request_header request_payload arrive reset decode decrypt_message decipher_step
second-pieces-Fits = (
  (omega arith, omega arith),
  ((omega arith, omega arith), ((omega arith, omega arith), ((omega arith, omega arith), tt))),
)

pub link-Matched :
    Matched body_limit (sender_of plain_zlib a_link 0x2a) (endpoint_of plain_zlib a_link 0x2a false)
link-Matched =
    Link-Matched plain_zlib a_link 0x2a plain_zlib-IsZlib (omega arith) (omega arith) (omega arith)

send_all_done_example :
    (stream : Bytes) × (send_all (sender_of plain_zlib a_link 0x2a) (a_message ∷ []) ≡ done stream)
send_all_done_example =
    send_all_done body_limit (sender_of plain_zlib a_link 0x2a)
      (endpoint_of plain_zlib a_link 0x2a false) link-Matched (a_message ∷ [])
      (a_message-Sendable, tt)
