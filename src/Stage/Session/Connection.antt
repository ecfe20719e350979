-- ===== src/Stage/Session/Connection.antt =====
-- The two sessions of one connection, from its handshake on.
use linux_stage_asio.Prelude.{
  ℕ, ◌≡◌, sym, ap, subst, ◌∙◌, ◌⊎◌, inl, inr, Bool, true, false, List, [], ◌∷◌,
}
use linux_stage_asio.Stage.Authentication.{Request, Response, serialize_request, serialize_response}
use linux_stage_asio.Stage.Authentication.RoundTrip.{IsRequest}
use linux_stage_asio.Stage.Session.{
  Session, Host, Event, replied, opened, initial, authentication_aaa,
}
use linux_stage_asio.Stage.Session.Input.{process_input}
use linux_stage_asio.Stage.Session.Lasting.{Lasts, Lasts-link_of}
use linux_stage_asio.Stage.Session.Handshake.{Accepting, message_of, link_of, handshake_agrees}

-- A new server session was handed the request, and a new client session the response that the
-- server's log shows.
pub record ShookHands (server client : Session) : Type 0 where
  pub server_host : Host
  pub client_host : Host
  pub server_created : ℕ
  pub server_started : ℕ
  pub client_created : ℕ
  pub client_started : ℕ
  pub server_time : ℕ
  pub client_time : ℕ
  pub client_handler : Bool
  pub server_routing : Bool
  pub client_routing : Bool
  pub request : Request
  pub link_no : ℕ
  pub response : Response
  pub is_request : IsRequest request
  pub accepting : Accepting server_host request link_no
  pub client_opens : client_host.accept_open ≡ true
  pub server_is :
      process_input server_host server_time
        (initial true true server_routing 0 server_created server_started)
        (message_of authentication_aaa 0 (serialize_request request))
      ≡ server
  pub logged : server.log ≡ opened ∷ replied response 0 ∷ []
  pub client_is :
      process_input client_host client_time
        (initial false client_handler client_routing request.link_type client_created
          client_started)
        (message_of authentication_aaa 0 (serialize_response response))
      ≡ client

replied_injective :
    (a b : Response)
    → ◌≡◌ {A = List Event} (opened ∷ replied a 0 ∷ []) (opened ∷ replied b 0 ∷ [])
    → a ≡ b
replied_injective a b e = cc

ShookHands-link :
    (server client : Session)
    → ShookHands server client
    → (server.establish ≡ true) × (client.establish ≡ true) × (link_of server ≡ link_of client)
ShookHands-link server client h =
    let (server', client', response', s', c', log', _, server_up, client_up, _, _, agree) =
      handshake_agrees h.server_host h.client_host h.server_created h.server_started h.server_time
        h.client_created h.client_started h.client_time h.client_handler h.server_routing
        h.client_routing h.request h.link_no h.is_request h.accepting h.client_opens in
    let same_server : server' ≡ server = sym s' ∙ h.server_is in
    let same_response : response' ≡ h.response =
      replied_injective response' h.response (sym log' ∙ ap (λ t. t.log) same_server ∙ h.logged) in
    let same_client : client' ≡ client =
      sym c'
      ∙ ap
          (λ t.
            process_input h.client_host h.client_time
              (initial false h.client_handler h.client_routing h.request.link_type h.client_created
                h.client_started)
              (message_of authentication_aaa 0 (serialize_response t)))
          same_response
      ∙ h.client_is in
    (
      subst (λ t. t.establish ≡ true) same_server server_up,
      subst (λ t. t.establish ≡ true) same_client client_up,
      ap link_of (sym same_server) ∙ agree ∙ ap link_of same_client,
    )

-- The two ends of a connection, the sender first: behind their handshake, in which either may be the
-- server, messages and ticks may have come that ended neither of them.
pub record Connected (sender receiver : Session) : Type 0 where
  pub first_sender : Session
  pub first_receiver : Session
  pub shook : ShookHands first_sender first_receiver ⊎ ShookHands first_receiver first_sender
  pub sender_lasts : Lasts first_sender sender
  pub receiver_lasts : Lasts first_receiver receiver

shook-link :
    (s t : Session)
    → ShookHands s t ⊎ ShookHands t s
    → (s.establish ≡ true) × (t.establish ≡ true) × (link_of s ≡ link_of t)
shook-link s t (inl h) = ShookHands-link s t h
shook-link s t (inr h) = let (a, b, e) = ShookHands-link t s h in (b, a, sym e)

pub Connected-link :
    (sender receiver : Session) → Connected sender receiver → link_of sender ≡ link_of receiver
Connected-link sender receiver c =
    let (up, up', agree) = shook-link c.first_sender c.first_receiver c.shook in
    (Lasts-link_of c.sender_lasts up).1 ∙ agree ∙ sym (Lasts-link_of c.receiver_lasts up').1
