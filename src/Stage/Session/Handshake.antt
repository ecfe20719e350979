-- ===== src/Stage/Session/Handshake.antt =====
-- The two ends of a handshake.
use linux_stage_asio.Prelude.{
  ℕ, ◌^◌, ◌<◌, ◌≡◌, refl, subst, Bool, true, false, Option, none, some, List, [], ◌∷◌, ◌++◌,
  append-nil, arith, length, length-append, take-all,
}
use linux_stage_asio.Prelude.Words.{u8, u16, Bytes, put16, put32}
use linux_stage_asio.Core.Segment.{contents}
use linux_stage_asio.Net.Message.{Message}
use linux_stage_asio.Stage.Authentication.{
  Request, Response, Text, write_text, serialize_request, serialize_response, deserialize_request,
  deserialize_response,
}
use linux_stage_asio.Stage.Authentication.RoundTrip.{
  IsRequest, IsResponse, TextFits, deserialize_request-serialize_request,
  deserialize_response-serialize_response,
}
use linux_stage_asio.Stage.Session.{
  Session, Host, Event, replied, opened, initial, authentication_aaa, error_success,
  heartbeat_command,
}
use linux_stage_asio.Stage.Session.Input.{
  process_input, process_handshake, authenticate, completely_warp, complete_server, complete_client,
  builder_of, parsed,
}

-- The message of `Send2`: an object's bytes in a buffer of its own.
abbrev pub message_of : ℕ → ℕ → Bytes → Message
message_of command sequence_no block = record {
  command_id = command;
  sequence_no = sequence_no;
  payload = some (record { buffer = some block; offset = 0; length = length block });
}

message_of_contents :
    (block : Bytes)
    → 0 < length block
    → length block < 2 ^ 31
    → contents (record { buffer = some block; offset = 0; length = length block }) ≡ block
unfolding contents
message_of_contents block pos fits = ground (arith, take-all (length block) block (omega arith))

-- A request with a platform, and a server's host that accepts it, on a connection that can be written to, with a key that
-- is no null pointer on the wire.
pub record Accepting (h : Host) (r : Request) (link_no : ℕ) : Type 0 where
  pub platform : Bytes
  pub named : r.platform ≡ some platform
  pub grants : h.authenticate r ≡ (error_success, some link_no)
  pub opens : h.accept_open ≡ true
  pub writes : (e : Event) → h.send_ok e ≡ true
  pub key_fits : length h.new_key < 0xffff

-- The response of a new server session that gives the number to the link.
abbrev pub granted : Host → Request → ℕ → Response
granted h r link_no = record {
  code = error_success;
  subtract = u8 h.new_subtract;
  mod_vt = u8 h.new_mod_vt;
  key = some h.new_key;
  link_no = u16 link_no;
  link_type = r.link_type;
}

granted-IsResponse :
    (h : Host) (r : Request) (link_no : ℕ)
    → IsRequest r
    → Accepting h r link_no
    → IsResponse (granted h r link_no)
granted-IsResponse h r link_no v a = record {
  code_fits = omega arith;
  subtract_fits = omega arith;
  mod_vt_fits = omega arith;
  key_fits = a.key_fits;
  link_no_fits = omega arith;
  link_type_fits = v.link_type_fits;
}

-- A reader that reads back what was written reads it from a message, too.
parsed-message_of :
    {A : Type 0} (read : Bytes → Option (A × Bytes)) (command sequence_no : ℕ) (block : Bytes)
    (a : A)
    → 0 < length block
    → length block < 2 ^ 31
    → read (block ++ []) ≡ some (a, [])
    → parsed read (message_of command sequence_no block) ≡ some a
parsed-message_of read command sequence_no block a pos fits reads =
    let back : read block ≡ some (a, []) =
      subst (λ b. read b ≡ some (a, [])) (append-nil block) reads in
    ground (arith, message_of_contents block pos fits, back)

write_text_short : (t : Text) → TextFits t → length (write_text t) < 2 ^ 17
write_text_short none fits = omega arith
write_text_short (some s) fits = omega arith

parsed_request :
    (r : Request) (sequence_no : ℕ)
    → IsRequest r
    → parsed deserialize_request (message_of authentication_aaa sequence_no (serialize_request r))
      ≡ some r
unfolding serialize_request
parsed_request r sequence_no v =
    parsed-message_of deserialize_request authentication_aaa sequence_no (serialize_request r) r
      (omega arith)
      (omega (
        arith,
        write_text_short r.platform v.platform_fits,
        length-append (write_text r.platform) (u8 r.link_type ∷ put16 r.max_fd),
      ))
      (deserialize_request-serialize_request r [] v)

parsed_response :
    (r : Response) (sequence_no : ℕ)
    → IsResponse r
    → parsed deserialize_response (message_of authentication_aaa sequence_no (serialize_response r))
      ≡ some r
unfolding serialize_response
parsed_response r sequence_no v =
    parsed-message_of deserialize_response authentication_aaa sequence_no (serialize_response r) r
      (omega arith)
      (omega (
        arith,
        write_text_short r.key v.key_fits,
        length-append (write_text r.key) (put32 r.link_no ++ u8 r.link_type ∷ []),
      ))
      (deserialize_response-serialize_response r [] v)

server_after : Host → ℕ → Bool → Request → Bytes → ℕ → Session
server_after h now only_routing r platform link_no = record {
  disposed = false;
  establish = true;
  recv_auth = true;
  servering = true;
  socket_opened = true;
  handler = true;
  only_routing = only_routing;
  protocol = authentication_aaa ∷ heartbeat_command ∷ [];
  key = h.new_key;
  subtract = u8 h.new_subtract;
  mod_vt = u8 h.new_mod_vt;
  link_no = u16 link_no;
  link_type = 0;
  peer = some (builder_of r platform);
  wait_start = now;
  heartbeat_at = now;
  activity = now;
  log = opened ∷ replied (granted h r link_no) 0 ∷ [];
}

server_step :
    (h : Host) (created started now : ℕ) (only_routing : Bool) (r : Request) (link_no : ℕ)
    → IsRequest r
    → (a : Accepting h r link_no)
    → process_input h now
        (initial true true only_routing 0 created started)
        (message_of authentication_aaa 0 (serialize_request r))
      ≡ server_after h now only_routing r a.platform link_no
unfolding server_after process_input process_handshake authenticate completely_warp complete_server
server_step h created started now only_routing r link_no v a = ground (
  arith,
  parsed_request r 0 v,
  a.named,
  a.grants,
  a.opens,
  a.writes (replied (granted h r link_no) 0),
)

client_after : ℕ → Bool → Bool → Request → Response → Bytes → Session
client_after now handler only_routing r response key = record {
  disposed = false;
  establish = true;
  recv_auth = true;
  servering = false;
  socket_opened = true;
  handler = handler;
  only_routing = only_routing;
  protocol = authentication_aaa ∷ heartbeat_command ∷ [];
  key = key;
  subtract = response.subtract;
  mod_vt = response.mod_vt;
  link_no = u16 response.link_no;
  link_type = r.link_type;
  peer = none;
  wait_start = now;
  heartbeat_at = now;
  activity = now;
  log = opened ∷ [];
}

client_step :
    (h : Host) (created started now : ℕ) (handler only_routing : Bool) (r : Request)
    (response : Response) (key : Bytes)
    → IsResponse response
    → response.key ≡ some key
    → response.code ≡ error_success
    → response.link_type ≡ r.link_type
    → h.accept_open ≡ true
    → process_input h now
        (initial false handler only_routing r.link_type created started)
        (message_of authentication_aaa 0 (serialize_response response))
      ≡ client_after now handler only_routing r response key
unfolding client_after process_input process_handshake complete_client
client_step h created started now handler only_routing r response key v keyed code link opens =
    ground (arith, parsed_response response 0 v)

-- What both ends of a link must have in common to understand each other.
abbrev pub link_of : Session → Bytes × ℕ × ℕ × ℕ × List ℕ
link_of s = (s.key, s.subtract, s.mod_vt, s.link_no, s.protocol)

-- A new server session is handed a request whose fields fit and that its host grants, and a new
-- client session of the request's link type is handed the response that the server's log shows. Then
-- both are established and alive, each was opened once, and they have the same key, subtrahend,
-- modulus, link number and transparent protocol.
pub handshake_agrees :
    (server_host client_host : Host) (created started now created' started' later : ℕ)
    (handler routing routing' : Bool) (r : Request) (link_no : ℕ)
    → IsRequest r
    → Accepting server_host r link_no
    → client_host.accept_open ≡ true
    → (server client : Session) × (response : Response) × (process_input server_host now
          (initial true true routing 0 created started)
          (message_of authentication_aaa 0 (serialize_request r))
        ≡ server)
      × (process_input client_host later
            (initial false handler routing' r.link_type created' started')
            (message_of authentication_aaa 0 (serialize_response response))
          ≡ client)
      × (server.log ≡ opened ∷ replied response 0 ∷ [])
      × (client.log ≡ opened ∷ [])
      × (server.establish ≡ true)
      × (client.establish ≡ true)
      × (server.disposed ≡ false)
      × (client.disposed ≡ false)
      × (link_of server ≡ link_of client)
unfolding server_after client_after
handshake_agrees server_host client_host created started now created' started' later handler routing
      routing' r link_no v a opens =
    let response = granted server_host r link_no in
    let narrow : u16 (u16 link_no) ≡ u16 link_no = omega arith in
    (
      server_after server_host now routing r a.platform link_no,
      client_after later handler routing' r response server_host.new_key,
      response,
      server_step server_host created started now routing r link_no v a,
      client_step client_host created' started' later handler routing' r response
          server_host.new_key (granted-IsResponse server_host r link_no v a) refl refl refl opens,
      refl,
      refl,
      refl,
      refl,
      refl,
      refl,
      ground (arith, narrow),
    )
