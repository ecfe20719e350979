-- ===== src/Stage/Session/Input.antt =====
-- stage/stage/StageSocket.cpp: `ProcessInput`, the handshake and the timer of a session.
use linux_stage_asio.Prelude.{
  ℕ, ◌-◌, max, Bool, true, false, ◌&&◌, ◌||◌, not, Option, none, some, [], ◌∷◌, ltb, leb, ◌==◌,
  if◌then◌else◌, length,
}
use linux_stage_asio.Prelude.Words.{u8, u16, u32, Bytes}
use linux_stage_asio.Core.Segment.{contents}
use linux_stage_asio.Net.Message.{Message}
use linux_stage_asio.Stage.Authentication.{
  Request, Response, deserialize_request, deserialize_response,
}
use linux_stage_asio.Stage.Session.{
  undefined, lcritical, authentication_aaa, heartbeat_command, routing_transparent, rcritical,
  error_success, error_pending, raise, abort, send, forward_open, replied, beat, passed, Session,
  Host,
}

abbrev pub response_of : Host → Session → ℕ → Request → Response
response_of h s error request = record {
  code = u16 error;
  subtract = if s.subtract == 0 then u8 h.new_subtract else s.subtract;
  mod_vt = if s.mod_vt == 0 then u8 h.new_mod_vt else s.mod_vt;
  key = some (if length s.key == 0 then h.new_key else s.key);
  link_no = s.link_no;
  link_type = request.link_type;
}

-- `CompletelyAuthentication(error, request, ackNo)`, the server's
unfoldable pub complete_server : Host → Session → ℕ → Request → ℕ → Session × Bool
complete_server h s error request ack_no =
    let response = response_of h s error request in
    let keyed : Session = record s {
      subtract = response.subtract;
      mod_vt = response.mod_vt;
      key = if length s.key == 0 then h.new_key else s.key;
    } in
    let (sent, ok) = send h keyed (replied response (u32 ack_no)) in
    (sent, ok && (error == error_success))

-- `CompletelyAuthentication(response)`, the client's. A key that is a null pointer has the length -1
-- and is refused, an empty one is taken.
unfoldable pub complete_client : Session → Response → Session × Bool
complete_client s response =
    if not (response.code == error_success)
    then (s, false)
    else if not (s.link_type == response.link_type)
    then (s, false)
    else elim response.key [
      | none ↦ (s, false)
      | some key ↦ (
        record s {
          key = key;
          subtract = response.subtract;
          mod_vt = response.mod_vt;
          link_no = u16 response.link_no;
        },
        true,
      )
    ]

abbrev pub established : Host → ℕ → Session → Session
established h now s = forward_open h (record s { establish = true; heartbeat_at = now })

-- `completelyWarp`, which the handler may also call later.
unfoldable pub completely_warp : Host → ℕ → Session → Request → ℕ → ℕ → Session
completely_warp h now s request ack_no error =
    if s.disposed
    then abort s
    else if error == error_pending
    then abort s
    else let (sent, ok) = complete_server h s error request ack_no in
      if ok then established h now sent else abort sent

-- `ProcessAuthentication` and the call of `completelyWarp` on its error. Without a handler
-- `completelyWarp` is called with success.
unfoldable pub authenticate : Host → ℕ → Session → Request → ℕ → Session
authenticate h now s request ack_no =
    let (error, link_no) = h.authenticate request in
    let linked : Session = record s {
      link_no = elim link_no [ none ↦ s.link_no | some n ↦ u16 n ];
    } in
    if not s.handler
    then completely_warp h now s request ack_no error_success
    else if error == error_pending
    then linked
    else completely_warp h now linked request ack_no error

-- `Message::Deserialize` on the payload
abbrev pub parsed : {A : Type 0} → (Bytes → Option (A × Bytes)) → Message → Option A
parsed read m = elim m.payload [
  | none ↦ none
  | some segment ↦ elim (read (contents segment)) [ none ↦ none | some (a, _) ↦ some a ]
]

-- `IsCriticalCommandId`
abbrev pub is_critical : ℕ → Bool
is_critical command = ltb command lcritical || leb rcritical command

-- A `std::string` that is made of a `const char *` ends at the first zero byte.
abbrev pub c_string : Bytes → Bytes
c_string [] = []
c_string (b ∷ bytes) = let rest = c_string bytes in if b == 0 then [] else b ∷ rest

-- The fields of the request that the builder keeps, with `SetMaxFiledescriptor`'s least value.
abbrev pub builder_of : Request → Bytes → Request
builder_of r platform = record r { platform = some (c_string platform); max_fd = max 1 r.max_fd }

-- The builder is given the fields, its platform from a pointer that must not be null.
abbrev pub take_request : Host → ℕ → Session → Request → ℕ → Session
take_request h now s request ack_no = elim request.platform [
  | none ↦ raise s undefined
  | some platform ↦
      authenticate h now (record s { peer = some (builder_of request platform) }) request ack_no
]

-- `ProcessInput` before the connection is established
unfoldable pub process_handshake : Host → ℕ → Session → Message → Session
process_handshake h now s m =
    let waiting : Session = record s { recv_auth = true; wait_start = now } in
    if not (m.command_id == authentication_aaa)
    then abort s
    else if s.recv_auth
    then abort s
    else if not (m.sequence_no == 0)
    then abort s
    else if s.servering
    then elim (parsed deserialize_request m) [
      | none ↦ abort waiting
      | some request ↦ take_request h now waiting request m.sequence_no
    ]
    else elim (parsed deserialize_response m) [
      | none ↦ abort waiting
      | some response ↦
          let (keyed, ok) = complete_client waiting response in
          if ok then established h now keyed else abort keyed
    ]

-- `ProcessHeartbeat`, and the server's heartbeat in return
unfoldable pub process_heartbeat : Host → Session → Message → Session
process_heartbeat h s m =
    if s.handler && not (h.answer_heartbeat m == error_success)
    then abort s
    else if s.servering
    then (let (sent, ok) = send h s (beat m.sequence_no) in if ok then sent else abort sent)
    else s

-- `Socket::ProcessInput`: `OnMessage` with the handler's verdict
abbrev pub pass_on : Host → Session → Message → Session
pass_on h s m = if s.handler && not (h.accept_message m) then abort s else raise s (passed m)

unfoldable pub process_input : Host → ℕ → Session → Message → Session
process_input h now s m =
    let active : Session = record s { activity = now } in
    if s.disposed
    then abort s
    else if is_critical m.command_id
    then abort active
    else if not s.establish
    then process_handshake h now active m
    else if m.command_id == authentication_aaa
    then abort active
    else if m.command_id == heartbeat_command
    then process_heartbeat h active m
    else if not s.servering && (s.only_routing && not (m.command_id == routing_transparent))
    then abort active
    else pass_on h active m

-- `ProcessTickAlways` with the time spans in milliseconds; `ack_no` is a new id.
unfoldable pub process_tick_always : Host → ℕ → ℕ → Session → Session × Bool
process_tick_always h now ack_no s =
    let late : ℕ → ℕ → Bool = λ since span. ltb now since || leb span (now - since) in
    if not s.establish
    then (if late s.wait_start 5000 then (record s { wait_start = now }, false) else (s, true))
    else if late s.activity 30000
    then (record s { activity = now }, false)
    else if not s.servering && late s.heartbeat_at 10000
    then send h (record s { heartbeat_at = now }) (beat ack_no)
    else (s, true)

-- The timer's `TickEvent`
unfoldable pub tick : Host → ℕ → ℕ → Session → Session
tick h now ack_no s =
    if s.disposed
    then abort s
    else let (after, alive) = process_tick_always h now ack_no s in
      if alive then after else abort after
