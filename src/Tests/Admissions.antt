-- ===== src/Tests/Admissions.antt =====
-- A client that is admitted and one that is not.
use linux_stage_asio.Prelude.{
  ℕ, ◌^◌, ◌≤◌, ◌<◌, ◌≡◌, refl, true, false, none, some, [], ◌∷◌, arith, length,
}
use linux_stage_asio.Stage.Registry.{find, next_socket, new_link_no, search_link_no}
use linux_stage_asio.Stage.Admission.{
  Server, Verdict, success, svr_area_no_it_is_illegal, Applicant, process_authentication,
}
use linux_stage_asio.Stage.Admission.Placing.{IsOrder, clients, Placed}
use linux_stage_asio.Stage.Admission.Capacity.{process_authentication-Placed}

abbrev a_server : Server
a_server = record {
  svr_area_no = 1;
  max_socket_count = 2;
  server_sockets =
      (4, some (record { sockets = (1, 70) ∷ []; current = none; allow_accept = true })) ∷ [];
  socket_clients =
      (4, some (record { sockets = (5, 50) ∷ []; current = some 5; allow_accept = false })) ∷ [];
}

abbrev an_applicant : Applicant
an_applicant = record {
  socket = 60;
  svr_area_no = 1;
  link_type = 4;
  sent = true;
  arrange = λ entries. entries;
}

same-IsOrder : IsOrder (λ entries. entries)
same-IsOrder = record { finds = λ entries key. refl; counts = λ entries. refl }

a_server-admits : (process_authentication an_applicant a_server 5).verdict ≡ success
unfolding process_authentication next_socket new_link_no
    linux_stage_asio.Stage.Admission.number_client linux_stage_asio.Stage.Admission.settle
    search_link_no
a_server-admits = refl

process_authentication-Placed_example :
    (link_no : ℕ) × ((process_authentication an_applicant a_server 5).link_no ≡ some link_no)
    × (find (clients a_server 4) link_no ≡ none)
    × (0 < link_no)
    × (link_no < 2 ^ 16)
    × Placed an_applicant
        (clients a_server 4)
        link_no
        5
        (process_authentication an_applicant a_server 5).server
    × (length (clients (process_authentication an_applicant a_server 5).server 4) ≤ 2)
    × (a_server.svr_area_no ≡ an_applicant.svr_area_no)
process_authentication-Placed_example =
    process_authentication-Placed an_applicant a_server 5 5 same-IsOrder (omega arith) (omega arith)
      a_server-admits

abbrev a_stranger : Applicant
a_stranger = record an_applicant { svr_area_no = 9 }
