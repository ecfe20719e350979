-- ===== src/Stage/Admission.antt =====
-- `ClientStageSocketHandler::ProcessAuthentication` of stage/stage/StageSocketCommunication.cpp: how a
-- client's socket comes to a server's table. The communication is alive, the packet of
-- `AcceptClient` is built, and `SocketVectorObject::Send` does as the argument says.
pub mod Placing
pub mod Capacity
use linux_stage_asio.Prelude.{
  ℕ, Bool, ◌||◌, not, Option, none, some, List, [], ◌∷◌, leb, ◌==◌, if◌then◌else◌, length,
}
use linux_stage_asio.Stage.Registry.{
  SocketVector, empty_vector, find, add_socket, next_socket, new_link_no,
}

-- The pointers of a table, `none` for a null one.
abbrev pub SocketTable : Type 0
SocketTable = List (ℕ × Option SocketVector)

pub record Server : Type 0 where
  pub svr_area_no : ℕ
  pub max_socket_count : ℕ
  pub server_sockets : SocketTable
  pub socket_clients : SocketTable

-- stage/stage/model/Error.h
pub data Verdict : Type 0 where
  success : Verdict
  unable_to_find_this_server : Verdict
  svr_area_no_it_is_illegal : Verdict
  no_link_type_is_hosted : Verdict
  unable_try_get_value : Verdict
  internal_server_not_online : Verdict
  internal_server_refused : Verdict
  link_no_not_assigned : Verdict
  limit_number_of_clients : Verdict
  unable_to_post_establish_link : Verdict

-- `table[key]`, which adds a null pointer for a key that is not there.
abbrev pub touch : SocketTable → ℕ → SocketTable
touch table key = elim (find table key) [ none ↦ (key, none) ∷ table | some _ ↦ table ]

abbrev pub vector_of : SocketTable → ℕ → Option SocketVector
vector_of table key = elim (find table key) [ none ↦ none | some vector ↦ vector ]

-- `table[key] = vector`
abbrev pub assign : SocketTable → ℕ → SocketVector → SocketTable
assign [] key v = (key, some v) ∷ []
assign ((k, vector) ∷ table) key v =
    let rest = assign table key v in if k == key then (k, some v) ∷ table else (k, vector) ∷ rest

-- What is asked for, and what the surroundings do: the client's socket, the request's area and link
-- type, whether the packet to the internal server is sent, and the map's new order.
pub record Applicant : Type 0 where
  pub socket : ℕ
  pub svr_area_no : ℕ
  pub link_type : ℕ
  pub sent : Bool
  pub arrange : List (ℕ × ℕ) → List (ℕ × ℕ)

-- The verdict, the server, the counter of link numbers, and the number that the socket is given.
pub record Admission : Type 0 where
  pub verdict : Verdict
  pub server : Server
  pub counter : ℕ
  pub link_no : Option ℕ

-- The entries that `NewLinkNo` looks at: `none` without a vector or with an empty one.
abbrev pub taken : Option SocketVector → Option (List (ℕ × ℕ))
taken none = none
taken (some v) = if length v.sockets == 0 then none else some v.sockets

-- Behind the check of the limit: the packet, and the socket's place in the table.
unfoldable pub settle : Applicant → Server → SocketVector → SocketVector → ℕ → Admission
settle a server server_vector clients link_no =
    let (turned, socket) = next_socket server_vector in
    let posted : Server = record server {
      server_sockets = assign server.server_sockets a.link_type turned;
    } in
    let settled : Server = record posted {
      socket_clients =
          assign posted.socket_clients a.link_type (add_socket a.arrange clients link_no a.socket);
    } in
    let failed : Admission = record {
      verdict = unable_to_post_establish_link;
      server = posted;
      counter = link_no;
      link_no = some link_no;
    } in
    if a.sent
    then elim socket [
      | none ↦ failed
      | some _ ↦ record {
        verdict = success;
        server = settled;
        counter = link_no;
        link_no = some link_no;
      }
    ]
    else failed

-- Behind the guards on the internal server: a link number, the vector, and the limit.
unfoldable pub number_client : Applicant → Server → SocketVector → ℕ → Admission
number_client a server server_vector counter =
    let clients = vector_of server.socket_clients a.link_type in
    let link_no = new_link_no (taken clients) counter in
    let vector : SocketVector = elim clients [ none ↦ empty_vector | some v ↦ v ] in
    let hosted : Server = record server {
      socket_clients = assign server.socket_clients a.link_type vector;
    } in
    let refuse : Verdict → Server → Admission = λ verdict left. record {
      verdict = verdict;
      server = left;
      counter = link_no;
      link_no = none;
    } in
    if link_no == 0
    then refuse link_no_not_assigned server
    else if server.max_socket_count == 0 || leb server.max_socket_count (length vector.sockets)
    then refuse limit_number_of_clients hosted
    else settle a hosted server_vector vector link_no

-- `ProcessAuthentication` on the server that `GetServerObject` finds.
unfoldable pub process_authentication : Applicant → Server → ℕ → Admission
process_authentication a server counter =
    let touched : Server = record server {
      server_sockets = touch server.server_sockets a.link_type;
    } in
    let refuse : Verdict → Server → Admission = λ verdict left. record {
      verdict = verdict;
      server = left;
      counter = counter;
      link_no = none;
    } in
    if not (server.svr_area_no == a.svr_area_no)
    then refuse svr_area_no_it_is_illegal server
    else if length server.server_sockets == 0
    then refuse no_link_type_is_hosted server
    else elim (vector_of server.server_sockets a.link_type) [
      | none ↦ refuse unable_try_get_value touched
      | some server_vector ↦
          if length server_vector.sockets == 0
          then refuse internal_server_not_online touched
          else if not server_vector.allow_accept
          then refuse internal_server_refused touched
          else number_client a touched server_vector counter
    ]
