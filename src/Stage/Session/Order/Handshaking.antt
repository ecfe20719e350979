-- ===== src/Stage/Session/Order/Handshaking.antt =====
-- The invariant behind the order of a session's events, and the handshake's steps.
use linux_stage_asio.Prelude.{
  ℕ, ◌≡◌, refl, ap, ◌⊎◌, Bool, true, false, ◌&&◌, ◌||◌, not, Option, none, some, arith,
  if◌then◌else◌,
}
use linux_stage_asio.Net.Message.{Message}
use linux_stage_asio.Stage.Authentication.{
  Request, Response, deserialize_request, deserialize_response,
}
use linux_stage_asio.Stage.Session.{undefined, raise, Session, Host, abort, error_success}
use linux_stage_asio.Prelude.Words.{u16, Bytes}
use linux_stage_asio.Stage.Session.Input.{
  take_request, established, parsed, builder_of, completely_warp, complete_server, complete_client,
  authenticate, process_handshake,
}
use linux_stage_asio.Stage.Session.Order.{has_opened, has_aborted, ordered}

-- The log is in order, it has an end exactly when the session is disposed, which is then not
-- established, and it has an opening when the session is established.
unfoldable pub sound : Session → Bool
sound s =
    ordered s.log
    && (if s.disposed
        then has_aborted s.log && not s.establish
        else not (has_aborted s.log)
          && ((not s.establish || has_opened s.log)
              && (if s.servering
                  then (if s.socket_opened then has_opened s.log else not (has_opened s.log))
                  else s.recv_auth || not (has_opened s.log))))

pub abort-sound : (s : Session) → sound s ≡ true → sound (abort s) ≡ true
unfolding sound
abort-sound s h = ground arith

-- A session that waits for its opening: a server that was not opened, or a client in the handshake.
opening-sound :
    (h : Host) (now : ℕ) (s : Session)
    → sound s ≡ true
    → s.disposed ≡ false
    → (s.servering ≡ true) ⊎ ((s.recv_auth ≡ true) × (has_opened s.log ≡ false))
    → sound (established h now s) ≡ true
unfolding sound
opening-sound h now s k d side = ground arith

complete_server-sound :
    (h : Host) (s : Session) (error : ℕ) (request : Request) (ack_no : ℕ)
    → sound s ≡ true
    → s.disposed ≡ false
    → s.servering ≡ true
    → (sound (complete_server h s error request ack_no).0 ≡ true)
      × ((complete_server h s error request ack_no).0.servering ≡ true)
      × (((complete_server h s error request ack_no).0.disposed ≡ false)
          ⊎ ((complete_server h s error request ack_no).1 ≡ false))
unfolding sound complete_server
complete_server-sound h s error request ack_no k d v = ground arith

pub completely_warp-sound :
    (h : Host) (now : ℕ) (s : Session) (request : Request) (ack_no error : ℕ)
    → s.servering ≡ true
    → sound s ≡ true
    → sound (completely_warp h now s request ack_no error) ≡ true
unfolding completely_warp
completely_warp-sound h now s request ack_no error v k =
    let sent = complete_server h s error request ack_no in
    ground (
      arith,
      abort-sound s k,
      complete_server-sound h s error request ack_no k,
      abort-sound sent.0,
      opening-sound h now sent.0,
    )

authenticate-sound :
    (h : Host) (now : ℕ) (s : Session) (request : Request) (ack_no : ℕ)
    → s.servering ≡ true
    → sound s ≡ true
    → sound (authenticate h now s request ack_no) ≡ true
unfolding authenticate
authenticate-sound h now s request ack_no v k =
    let (error, number) = h.authenticate request in
    let linked : Session = record s {
      link_no = elim number [ none ↦ s.link_no | some n ↦ u16 n ];
    } in
    let same : sound linked ≡ true = unfold sound in k in
    ground (
      arith,
      same,
      completely_warp-sound h now s request ack_no error_success v k,
      completely_warp-sound h now linked request ack_no error v same,
    )

-- The client's key material is no part of the order.
complete_client-sound :
    (s : Session) (response : Response)
    → sound s ≡ true
    → (sound (complete_client s response).0 ≡ true)
      × ((complete_client s response).0.disposed ≡ s.disposed)
      × ((complete_client s response).0.recv_auth ≡ s.recv_auth)
      × ((complete_client s response).0.log ≡ s.log)
unfolding sound complete_client
complete_client-sound s response k = ground arith

not_opened :
    (s : Session)
    → sound s ≡ true
    → s.disposed ≡ false
    → s.servering ≡ false
    → s.recv_auth ≡ false
    → has_opened s.log ≡ false
unfolding sound
not_opened s k d v r = ground arith

client-sound :
    (h : Host) (now : ℕ) (s : Session) (response : Response)
    → sound s ≡ true
    → s.disposed ≡ false
    → s.recv_auth ≡ true
    → has_opened s.log ≡ false
    → sound (
        if (complete_client s response).1
        then established h now (complete_client s response).0
        else abort (complete_client s response).0)
      ≡ true
client-sound h now s response k d r fresh =
    let (good, live, received, same) = complete_client-sound s response k in
    ground (
      arith,
      opening-sound h now (complete_client s response).0 good,
      ap has_opened same,
      abort-sound (complete_client s response).0 good,
    )

take_request-sound :
    (platform : Option Bytes) (h : Host) (now : ℕ) (s : Session) (request : Request) (ack_no : ℕ)
    → s.servering ≡ true
    → sound s ≡ true
    → s.disposed ≡ false
    → sound (elim platform [
      | none ↦ raise s undefined
      | some name ↦
          authenticate h now (record s { peer = some (builder_of request name) }) request ack_no
    ])
      ≡ true
take_request-sound none h now s request ack_no v k d = unfold sound in ground arith
take_request-sound (some name) h now s request ack_no v k d =
    authenticate-sound h now (record s { peer = some (builder_of request name) }) request ack_no v
      (unfold sound in k)

answer_request-sound :
    (o : Option Request) (h : Host) (now : ℕ) (s : Session) (ack_no : ℕ)
    → s.servering ≡ true
    → sound s ≡ true
    → s.disposed ≡ false
    → sound (elim o [ none ↦ abort s | some request ↦ take_request h now s request ack_no ]) ≡ true
answer_request-sound none h now s ack_no v k d = abort-sound s k
answer_request-sound (some request) h now s ack_no v k d =
    take_request-sound request.platform h now s request ack_no v k d

take_response-sound :
    (o : Option Response) (h : Host) (now : ℕ) (s : Session)
    → sound s ≡ true
    → s.disposed ≡ false
    → s.recv_auth ≡ true
    → has_opened s.log ≡ false
    → sound (elim o [
      | none ↦ abort s
      | some response ↦
          if (complete_client s response).1
          then established h now (complete_client s response).0
          else abort (complete_client s response).0
    ])
      ≡ true
take_response-sound none h now s k d r fresh = abort-sound s k
take_response-sound (some response) h now s k d r fresh = client-sound h now s response k d r fresh

pub process_handshake-sound :
    (h : Host) (now : ℕ) (s : Session) (m : Message)
    → sound s ≡ true
    → s.disposed ≡ false
    → s.establish ≡ false
    → sound (process_handshake h now s m) ≡ true
unfolding process_handshake
process_handshake-sound h now s m k d e =
    let waiting : Session = record s { recv_auth = true; wait_start = now } in
    let waits : sound waiting ≡ true = unfold sound in ground arith in
    ground (
      arith,
      abort-sound s k,
      answer_request-sound (parsed deserialize_request m) h now waiting m.sequence_no,
      waits,
      not_opened s k d,
      take_response-sound (parsed deserialize_response m) h now waiting waits d refl,
    )
