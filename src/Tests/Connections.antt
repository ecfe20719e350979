-- ===== src/Tests/Connections.antt =====
-- A handshake, what follows it, and messages in both directions, on concrete values.
use linux_stage_asio.Prelude.{◌≡◌, refl, true, false, none, [], ◌∷◌}
use linux_stage_asio.Core.Segment.{contents, unsafe_addr}
use linux_stage_asio.Net.Message.{Message}
use linux_stage_asio.Stage.Authentication.{
  Response, serialize_request, serialize_response, deserialize_response,
}
use linux_stage_asio.Stage.Session.{Session, opened, replied, initial, authentication_aaa}
use linux_stage_asio.Stage.Session.Input.{process_input, process_handshake, complete_client}
use linux_stage_asio.Stage.Session.Handshake.{message_of, link_of, granted, handshake_agrees}
use linux_stage_asio.Stage.Session.{heartbeat_command}
use linux_stage_asio.Stage.Session.Input.{tick}
use linux_stage_asio.Tests.Links.{welcoming, a_request, a_request-IsRequest, welcoming-Accepting}

abbrev a_response : Response
a_response = granted welcoming a_request 5

abbrev a_server : Session
a_server =
    process_input welcoming 100 (initial true true false 0 80 90)
      (message_of authentication_aaa 0 (serialize_request a_request))

abbrev a_client : Session
a_client =
    process_input welcoming 110 (initial false true false 4 85 95)
      (message_of authentication_aaa 0 (serialize_response a_response))

-- The client sends a heartbeat when it is due, and the server answers it.
abbrev client_now : Session
client_now = tick welcoming 20200 7 a_client

abbrev a_heartbeat : Message
a_heartbeat = record { command_id = heartbeat_command; sequence_no = 7; payload = none }

abbrev server_now : Session
server_now = process_input welcoming 20210 a_server a_heartbeat

-- A response whose key is a null pointer ends the client's handshake.
client_refuses :
    (process_input welcoming 110 (initial false true false 4 85 95) (
      message_of authentication_aaa 0
        (serialize_response (record a_response { key = none })))).disposed
    ≡ true
unfolding process_input process_handshake complete_client contents unsafe_addr serialize_response
    deserialize_response
client_refuses = refl

handshake_agrees_example :
    (server client : Session) × (response : Response) × (process_input welcoming 100
        (initial true true true 0 80 90)
        (message_of authentication_aaa 0 (serialize_request a_request))
      ≡ server)
    × (process_input welcoming 110
          (initial false true false 4 85 95)
          (message_of authentication_aaa 0 (serialize_response response))
        ≡ client)
    × (server.log ≡ opened ∷ replied response 0 ∷ [])
    × (client.log ≡ opened ∷ [])
    × (server.establish ≡ true)
    × (client.establish ≡ true)
    × (server.disposed ≡ false)
    × (client.disposed ≡ false)
    × (link_of server ≡ link_of client)
handshake_agrees_example =
    handshake_agrees welcoming welcoming 80 90 100 85 95 110 true true false a_request 5
      a_request-IsRequest welcoming-Accepting refl
