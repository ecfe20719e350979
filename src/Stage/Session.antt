-- ===== src/Stage/Session.antt =====
-- stage/stage/StageSocket.cpp: the life of one connection, from the handshake to its end. The events
-- that the code raises are a log, the newest first; `Host` is what the session meets outside.
pub mod Input
pub mod Handshake
pub mod Lasting
pub mod Connection
pub mod Order
pub mod Clock
use linux_stage_asio.Prelude.{
  ℕ, Bool, true, false, ◌&&◌, not, Option, none, List, [], ◌∷◌, if◌then◌else◌,
}
use linux_stage_asio.Prelude.Words.{Bytes}
use linux_stage_asio.Net.Message.{Message}
use linux_stage_asio.Stage.Authentication.{Request, Response}

-- stage/stage/model/Commands.h
abbrev pub lcritical : ℕ
lcritical = 0x7e8d

abbrev pub authentication_aaa : ℕ
authentication_aaa = 0x7e8e

abbrev pub heartbeat_command : ℕ
heartbeat_command = 0x7e8f

abbrev pub routing_transparent : ℕ
routing_transparent = 0x7e92

abbrev pub rcritical : ℕ
rcritical = 0x7e97

-- stage/stage/model/Error.h
abbrev pub error_success : ℕ
error_success = 0

abbrev pub error_pending : ℕ
error_pending = 1

-- A response that is sent, a heartbeat that is sent, `OnOpen` and `OnMessage` of the socket, an
-- exception out of `Open`, undefined behaviour, and the end of the connection.
pub data Event : Type 0 where
  replied : Response → ℕ → Event
  beat : ℕ → Event
  opened : Event
  passed : Message → Event
  threw : Event
  undefined : Event
  aborted : Event

pub record Session : Type 0 where
  pub disposed : Bool
  pub establish : Bool
  pub recv_auth : Bool
  pub servering : Bool
  pub socket_opened : Bool
  pub handler : Bool
  pub only_routing : Bool
  pub protocol : List ℕ
  pub key : Bytes
  pub subtract : ℕ
  pub mod_vt : ℕ
  pub link_no : ℕ
  pub link_type : ℕ
  pub peer : Option Request
  pub wait_start : ℕ
  pub heartbeat_at : ℕ
  pub activity : ℕ
  pub log : List Event

-- The answers of the handler, of `async_send` and of the random numbers. `authenticate` gives the
-- error and the link number that the handler sets, `none` when it sets none.
pub record Host : Type 0 where
  pub authenticate : Request → ℕ × Option ℕ
  pub answer_heartbeat : Message → ℕ
  pub accept_open : Bool
  pub accept_message : Message → Bool
  pub send_ok : Event → Bool
  pub new_key : Bytes
  pub new_subtract : ℕ
  pub new_mod_vt : ℕ

-- The constructors and `StageSocket::Initialize`, behind which the protocol set holds the two
-- handshake commands. A builder gives a client's link type; a server's is 0.
abbrev pub initialize : Bool → Bool → ℕ → ℕ → Session
initialize handler only_routing link_type now = record {
  disposed = false;
  establish = false;
  recv_auth = false;
  servering = false;
  socket_opened = false;
  handler = handler;
  only_routing = only_routing;
  protocol = authentication_aaa ∷ heartbeat_command ∷ [];
  key = [];
  subtract = 0;
  mod_vt = 0;
  link_no = 0;
  link_type = link_type;
  peer = none;
  wait_start = 0;
  heartbeat_at = 0;
  activity = now;
  log = [];
}

-- A session that was created at the one time and opened at the other: `StageSocket::Open` of a new
-- session in its own mode, for which the three guards pass. A client's goes through `Socket::Open`,
-- a server's leaves that to `ForwardOpenInvoke`. That a server's handler refuses the session or that a
-- client's connection fails is an abort behind this.
abbrev pub initial : Bool → Bool → Bool → ℕ → ℕ → ℕ → Session
initial servering handler only_routing link_type created started =
    record (initialize handler only_routing link_type created) {
      servering = servering;
      wait_start = started;
      socket_opened = not servering;
    }

abbrev pub raise : Session → Event → Session
raise s e = record s { log = e ∷ s.log }

-- `StageSocket::Dispose`, less the sockets' own part.
abbrev pub dispose_fields : Session → Session
dispose_fields s = record s { establish = false; handler = false; key = []; protocol = [] }

-- `AbortINT3`: only the first one closes the connection.
abbrev pub abort : Session → Session
abort s = if s.disposed then dispose_fields s else record s {
  disposed = true;
  establish = false;
  handler = false;
  key = [];
  protocol = [];
  log = aborted ∷ s.log;
}

-- `Send`: a failure aborts.
abbrev pub send : Host → Session → Event → Session × Bool
send h s e =
    if s.disposed
    then (abort s, false)
    else if h.send_ok e
    then (raise s e, true)
    else (abort s, false)

-- `StageSocket::OnOpen`
abbrev pub on_open : Host → Session → Session
on_open h s = if s.handler && not h.accept_open then abort s else raise s opened

-- `ForwardOpenInvoke`. A server's goes through `Socket::Open`, which throws when it was opened.
abbrev pub forward_open : Host → Session → Session
forward_open h s =
    if s.servering
    then (if s.socket_opened then raise s threw else on_open h (record s { socket_opened = true }))
    else on_open h s
