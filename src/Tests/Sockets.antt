-- ===== src/Tests/Sockets.antt =====
-- Sessions and the registry of sockets on concrete values.
use linux_stage_asio.Prelude.{
  ◌+◌, ◌^◌, ◌≤◌, ◌<◌, ◌≡◌, refl, ◌↔◌, ◌⊎◌, true, false, none, some, [], ◌∷◌, arith,
}
use linux_stage_asio.Stage.Session.{
  Session, Host, Event, opened, replied, beat, aborted, passed, initial, abort,
}
use linux_stage_asio.Stage.Session.Input.{process_input, tick, is_critical}
use linux_stage_asio.Stage.Session.Order.{input, timer, Reach, start, next, ordered, has_aborted}
use linux_stage_asio.Stage.Session.Order.Steps.{Reach-ordered, Reach-disposed}
use linux_stage_asio.Stage.Session.Clock.{tick_waiting, tick_established, Late, InTime}
use linux_stage_asio.Stage.Registry.{
  SocketVector, find, find_socket, remove_by_link_no, new_link_no,
}
use linux_stage_asio.Stage.Registry.Rounds.{Distinct, rounds, next_socket-rounds}
use linux_stage_asio.Stage.Registry.Entries.{remove_by_link_no-find}
use linux_stage_asio.Stage.Registry.LinkNumbers.{new_link_no-free}
use linux_stage_asio.Stage.Authentication.{serialize_request}
use linux_stage_asio.Stage.Session.{authentication_aaa}
use linux_stage_asio.Stage.Session.Handshake.{message_of}
use linux_stage_asio.Tests.Links.{welcoming, a_request, a_message}

abbrev new_server : Session
new_server = initial true true false 0 80 90

-- The session behind a handshake and a message.
abbrev running : Session
running =
    process_input welcoming 200
      (process_input welcoming 100 new_server
        (message_of authentication_aaa 0 (serialize_request a_request)))
      a_message

running-Reach : Reach new_server running
running-Reach =
    next
      (next start
        (input welcoming 100 (message_of authentication_aaa 0 (serialize_request a_request))))
      (input welcoming 200 a_message)

Reach-ordered_example : (ordered running.log ≡ true) × (running.disposed ≡ has_aborted running.log)
Reach-ordered_example = Reach-ordered true true false 0 80 90 running running-Reach

-- A message in front of the handshake ends the session.
abbrev early : Session
early = process_input welcoming 100 new_server a_message

early-disposed : early.disposed ≡ true
unfolding process_input linux_stage_asio.Stage.Session.Input.process_handshake
early-disposed = refl

Reach-disposed_example :
    (early.establish ≡ false)
    × (has_aborted early.log ≡ true)
    × ((tick welcoming 500 1 early).disposed ≡ true)
    × ((tick welcoming 500 1 early).log ≡ early.log)
Reach-disposed_example =
    Reach-disposed true true false 0 80 90 early (tick welcoming 500 1 early)
      (next start (input welcoming 100 a_message)) early-disposed (timer welcoming 500 1)

tick_waiting_example :
    ((tick welcoming 5000 1 new_server).disposed ≡ false ↔ (90 ≤ 5000) × (5000 < 90 + 5000))
    × ((tick welcoming 5000 1 new_server).disposed ≡ true
        ⊎ (tick welcoming 5000 1 new_server ≡ new_server))
tick_waiting_example = tick_waiting welcoming 5000 1 new_server refl refl

abbrev a_client : Session
a_client = record (initial false true false 4 80 90) {
  establish = true;
  recv_auth = true;
  heartbeat_at = 100;
  activity = 100;
  log = opened ∷ [];
}

tick_established_example :
    (Late 10100 100 30000
      × ((tick welcoming 10100 1 a_client).disposed ≡ true)
      × ((tick welcoming 10100 1 a_client).log ≡ aborted ∷ opened ∷ []))
    ⊎ (InTime 10100 100 30000
        × (a_client.servering ≡ false)
        × Late 10100 100 10000
        × (tick welcoming 10100 1 a_client
            ≡ record a_client { heartbeat_at = 10100; log = beat 1 ∷ opened ∷ [] }))
    ⊎ (InTime 10100 100 30000
        × ((a_client.servering ≡ true) ⊎ InTime 10100 100 10000)
        × (tick welcoming 10100 1 a_client ≡ a_client))
tick_established_example = tick_established welcoming 10100 1 a_client refl refl refl

abbrev three : SocketVector
three = record { sockets = (5, 50) ∷ (6, 60) ∷ (9, 90) ∷ []; current = some 6; allow_accept = true }

three-Distinct : Distinct three.sockets
three-Distinct = (refl, (refl, (refl, tt)))

next_socket-rounds_example : rounds 3 three ≡ (some 90 ∷ some 50 ∷ some 60 ∷ [], three)
next_socket-rounds_example =
    next_socket-rounds three ((5, 50) ∷ []) ((9, 90) ∷ []) 6 60 refl refl three-Distinct

three-finds : find_socket three 6 ≡ some 60
unfolding find_socket
three-finds = refl

remove_by_link_no-find_example :
    ((remove_by_link_no three 6).1 ≡ some 60)
    × (find_socket (remove_by_link_no three 6).0 6 ≡ none)
    × (find_socket (remove_by_link_no three 6).0 9 ≡ find_socket three 9)
    × ((remove_by_link_no three 6).0.current ≡ none)
    × Distinct (remove_by_link_no three 6).0.sockets
remove_by_link_no-find_example =
    remove_by_link_no-find three 6 9 60 three-Distinct refl three-finds (omega arith)

new_link_no-free_example :
    (find three.sockets (new_link_no (some three.sockets) 4) ≡ none)
    × (0 < new_link_no (some three.sockets) 4)
    × (new_link_no (some three.sockets) 4 < 2 ^ 16)
new_link_no-free_example = new_link_no-free three.sockets 4 (omega arith) (omega arith)
