-- ===== src/Stage/Admission/Placing.antt =====
-- A socket's place in the table of clients.
use linux_stage_asio.Prelude.{
  ℕ, suc, ◌≡◌, refl, ap, ◌∙◌, ◌≢◌, ◌⊎◌, none, some, List, [], ◌∷◌, arith, length,
}
use linux_stage_asio.Stage.Registry.{SocketVector, find, store, add_socket}
use linux_stage_asio.Stage.Admission.{
  SocketTable, Server, success, vector_of, assign, Applicant, settle,
}

-- An order of iteration keeps the entries.
pub record IsOrder (arrange : List (ℕ × ℕ) → List (ℕ × ℕ)) : Type 0 where
  pub finds : (entries : List (ℕ × ℕ)) (key : ℕ) → find (arrange entries) key ≡ find entries key
  pub counts : (entries : List (ℕ × ℕ)) → length (arrange entries) ≡ length entries

-- The clients of a link type.
abbrev pub clients : Server → ℕ → List (ℕ × ℕ)
clients server link_type = elim (vector_of server.socket_clients link_type) [
  | none ↦ []
  | some v ↦ v.sockets
]

pub find-assign :
    (table : SocketTable) (key : ℕ) (v : SocketVector)
    → find (assign table key v) key ≡ some (some v)
find-assign [] key v = ground arith
find-assign ((k, vector) ∷ table) key v = ground (arith, find-assign table key v)

pub find-assign_other :
    (table : SocketTable) (key other : ℕ) (v : SocketVector)
    → key ≢ other
    → find (assign table key v) other ≡ find table other
find-assign_other [] key other v ne = ground arith
find-assign_other ((k, vector) ∷ table) key other v ne =
    ground (arith, find-assign_other table key other v ne)

find-store :
    (entries : List (ℕ × ℕ)) (key socket : ℕ) → find (store entries key socket) key ≡ some socket
find-store [] key socket = ground arith
find-store ((k, a) ∷ entries) key socket = ground (arith, find-store entries key socket)

find-store_other :
    (entries : List (ℕ × ℕ)) (key socket other : ℕ)
    → key ≢ other
    → find (store entries key socket) other ≡ find entries other
find-store_other [] key socket other ne = ground arith
find-store_other ((k, a) ∷ entries) key socket other ne =
    ground (arith, find-store_other entries key socket other ne)

length-store :
    (entries : List (ℕ × ℕ)) (key socket : ℕ)
    → find entries key ≡ none
    → length (store entries key socket) ≡ suc (length entries)
length-store [] key socket free = refl
length-store ((k, a) ∷ entries) key socket free = ground (arith, length-store entries key socket)

-- What an admission with a link number leaves: the socket under the number, one client more.
abbrev pub Placed : Applicant → List (ℕ × ℕ) → ℕ → ℕ → Server → Type 0
Placed a before link_no other after =
    (find (clients after a.link_type) link_no ≡ some a.socket)
    × ((other ≡ link_no) ⊎ (find (clients after a.link_type) other ≡ find before other))
    × (length (clients after a.link_type) ≡ suc (length before))

-- The socket's place in the table.
placed_lem :
    (a : Applicant) (server : Server) (v : SocketVector) (link_no other : ℕ)
    → IsOrder a.arrange
    → find v.sockets link_no ≡ none
    → vector_of server.socket_clients a.link_type ≡ some (add_socket a.arrange v link_no a.socket)
    → Placed a v.sockets link_no other server
unfolding add_socket
placed_lem a server v link_no other order free there =
    let entries = store v.sockets link_no a.socket in
    let here : clients server a.link_type ≡ a.arrange entries = ground arith in
    let other_found : (other ≡ link_no) ⊎ (find entries other ≡ find v.sockets other) =
      ground (arith, find-store_other v.sockets link_no a.socket other) in
    (
      ap (λ t. find t link_no) here
          ∙ order.finds entries link_no
          ∙ find-store v.sockets link_no a.socket,
      ground (arith, here, other_found, order.finds entries other),
      ap length here ∙ order.counts entries ∙ length-store v.sockets link_no a.socket free,
    )

pub settle-Placed :
    (a : Applicant) (server : Server) (sv v : SocketVector) (link_no other : ℕ)
    → IsOrder a.arrange
    → find v.sockets link_no ≡ none
    → (settle a server sv v link_no).verdict ≡ success
    → ((settle a server sv v link_no).link_no ≡ some link_no)
      × Placed a v.sockets link_no other (settle a server sv v link_no).server
unfolding settle
settle-Placed a server sv v link_no other order free ok =
    let put_there =
      find-assign server.socket_clients a.link_type (add_socket a.arrange v link_no a.socket) in
    let there : vector_of (settle a server sv v link_no).server.socket_clients a.link_type
        ≡ some (add_socket a.arrange v link_no a.socket) =
      ground (arith, put_there) in
    (
      ground arith,
      placed_lem a (settle a server sv v link_no).server v link_no other order free there,
    )

pub settle-refused :
    (a : Applicant) (server : Server) (sv v : SocketVector) (link_no link_type : ℕ)
    → (settle a server sv v link_no).verdict ≢ success
    → clients (settle a server sv v link_no).server link_type ≡ clients server link_type
unfolding settle
settle-refused a server sv v link_no link_type failed = ground arith
