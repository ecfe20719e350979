-- ===== src/Stage/Admission/Capacity.antt =====
-- Who is admitted, and what an admission and a refusal leave behind.
use linux_stage_asio.Prelude.{
  ℕ, ◌^◌, ◌≤◌, ◌<◌, ◌≡◌, refl, sym, ap, subst, ◌∙◌, inl, inr, Option, none, some, [], arith,
  Option-cases, length, length-zero,
}
use linux_stage_asio.Stage.Registry.{SocketVector, empty_vector, find, new_link_no}
use linux_stage_asio.Stage.Registry.LinkNumbers.{new_link_no-free}
use linux_stage_asio.Stage.Admission.{
  Server, success, touch, vector_of, assign, Applicant, taken, settle, number_client,
  process_authentication,
}
use linux_stage_asio.Stage.Admission.Placing.{IsOrder, clients, Placed, settle-Placed}

-- The link number is free, whether there are clients or not.
new_link_no-taken :
    (vector : Option SocketVector) (counter : ℕ)
    → counter < 2 ^ 16
    → length (elim vector [ none ↦ [] | some v ↦ v.sockets ]) < 65535
    → (find (elim vector [ none ↦ [] | some v ↦ v.sockets ]) (new_link_no (taken vector) counter)
        ≡ none)
      × (0 < new_link_no (taken vector) counter)
      × (new_link_no (taken vector) counter < 2 ^ 16)
unfolding new_link_no
new_link_no-taken none counter fits room = (refl, ground arith, ground arith)
new_link_no-taken (some v) counter fits room =
    let free = new_link_no-free v.sockets counter fits room in
    ground (arith, free, length-zero v.sockets)

chosen_sockets :
    (vector : Option SocketVector)
    → (elim vector as (λ _. SocketVector) [ none ↦ empty_vector | some v ↦ v ]).sockets
      ≡ elim vector [ none ↦ [] | some v ↦ v.sockets ]
chosen_sockets none = refl
chosen_sockets (some v) = refl

number_client-Placed :
    (a : Applicant) (server : Server) (sv : SocketVector) (counter other : ℕ)
    → IsOrder a.arrange
    → counter < 2 ^ 16
    → length (clients server a.link_type) < 65535
    → (number_client a server sv counter).verdict ≡ success
    → (link_no : ℕ) × ((number_client a server sv counter).link_no ≡ some link_no)
      × (find (clients server a.link_type) link_no ≡ none)
      × (0 < link_no)
      × (link_no < 2 ^ 16)
      × Placed a
          (clients server a.link_type)
          link_no
          other
          (number_client a server sv counter).server
      × (length (clients server a.link_type) < server.max_socket_count)
unfolding number_client
number_client-Placed a server sv counter other order fits room ok =
    let vector = vector_of server.socket_clients a.link_type in
    let link_no = new_link_no (taken vector) counter in
    let v : SocketVector = elim vector [ none ↦ empty_vector | some v ↦ v ] in
    let same : v.sockets ≡ clients server a.link_type = chosen_sockets vector in
    let (free, positive, narrow) = new_link_no-taken vector counter fits room in
    let hosted : Server = record server {
      socket_clients = assign server.socket_clients a.link_type v;
    } in
    let settled : number_client a server sv counter ≡ settle a hosted sv v link_no = ground arith in
    let below : length v.sockets < server.max_socket_count = ground arith in
    let (number, placed) =
      settle-Placed a hosted sv v link_no other order (ap (λ t. find t link_no) same ∙ free)
        (ap (λ t. t.verdict) (sym settled) ∙ ok) in
    (
      link_no,
      ap (λ t. t.link_no) settled ∙ number,
      free,
      positive,
      narrow,
      subst (λ t. Placed a t link_no other (number_client a server sv counter).server) same
          (subst (λ t. Placed a v.sockets link_no other t.server) (sym settled) placed),
      subst (λ t. length t < server.max_socket_count) same below,
    )

-- An admission has passed the guards on the internal server.
admitted-number_client :
    (a : Applicant) (server : Server) (counter : ℕ)
    → (process_authentication a server counter).verdict ≡ success
    → (sv : SocketVector) × (process_authentication a server counter
        ≡ number_client a
            (record server { server_sockets = touch server.server_sockets a.link_type })
            sv
            counter)
      × (server.svr_area_no ≡ a.svr_area_no)
unfolding process_authentication
admitted-number_client a server counter ok =
    elim (Option-cases (vector_of server.server_sockets a.link_type)) [
      | inl absent ↦ absurd (ground (arith, absent))
      | inr (sv, there) ↦ (sv, ground (arith, there), ground (arith, there))
    ]

-- When a client is admitted, the map keeps its entries in whatever order, and fewer than 65535 clients
-- of its link type were there: the areas agree, the socket is given a number that was not in use, is not 0 and fits
-- 16 bits, and is found under it; every other number is found as before; there is one client more,
-- and no more than the server's limit.
pub process_authentication-Placed :
    (a : Applicant) (server : Server) (counter other : ℕ)
    → IsOrder a.arrange
    → counter < 2 ^ 16
    → length (clients server a.link_type) < 65535
    → (process_authentication a server counter).verdict ≡ success
    → (link_no : ℕ) × ((process_authentication a server counter).link_no ≡ some link_no)
      × (find (clients server a.link_type) link_no ≡ none)
      × (0 < link_no)
      × (link_no < 2 ^ 16)
      × Placed a
          (clients server a.link_type)
          link_no
          other
          (process_authentication a server counter).server
      × (length (clients (process_authentication a server counter).server a.link_type)
          ≤ server.max_socket_count)
      × (server.svr_area_no ≡ a.svr_area_no)
unfolding process_authentication
process_authentication-Placed a server counter other order fits room ok =
    let touched : Server = record server {
      server_sockets = touch server.server_sockets a.link_type;
    } in
    let (sv, numbered, area) = admitted-number_client a server counter ok in
    let (link_no, number, free, positive, narrow, placed, below) =
      number_client-Placed a touched sv counter other order fits room
        (ap (λ t. t.verdict) (sym numbered) ∙ ok) in
    let placed_there : Placed a (clients server a.link_type) link_no other
        (process_authentication a server counter).server =
      subst (λ t. Placed a (clients server a.link_type) link_no other t.server) (sym numbered)
        placed in
    (
      link_no,
      ap (λ t. t.link_no) numbered ∙ number,
      free,
      positive,
      narrow,
      placed_there,
      omega (arith, placed_there.2, below),
      area,
    )
