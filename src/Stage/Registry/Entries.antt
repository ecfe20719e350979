-- ===== src/Stage/Registry/Entries.antt =====
-- What adding and removing a socket do to the other sockets and to the iterator.
use linux_stage_asio.Prelude.{
  ℕ, ◌<◌, ◌≡◌, refl, sym, subst, ◌∙◌, ◌≢◌, inl, inr, none, some, List, [], ◌∷◌, arith, ◌==◌,
  if◌then◌else◌, Bool-cases, length,
}
use linux_stage_asio.Stage.Registry.{SocketVector, find, erase, find_socket, remove_by_link_no}
use linux_stage_asio.Stage.Registry.Rounds.{Distinct}

find-erase :
    (entries : List (ℕ × ℕ)) (key : ℕ) → Distinct entries → find (erase entries key) key ≡ none
find-erase [] key d = refl
find-erase ((k, a) ∷ entries) key d = ground (arith, d.0, find-erase entries key d.1)

pub find-erase_other :
    (entries : List (ℕ × ℕ)) (key other : ℕ)
    → key ≢ other
    → find (erase entries key) other ≡ find entries other
find-erase_other [] key other ne = refl
find-erase_other ((k, a) ∷ entries) key other ne =
    ground (arith, find-erase_other entries key other ne)

erase-Distinct :
    (entries : List (ℕ × ℕ)) (key : ℕ) → Distinct entries → Distinct (erase entries key)
erase-Distinct [] key d = tt
erase-Distinct ((k, a) ∷ entries) key d =
    let rest = erase entries key in
    elim (Bool-cases (k == key)) [
      | inl same ↦ subst (λ b. Distinct (if b then entries else (k, a) ∷ rest)) (sym same) d.1
      | inr other ↦
          subst (λ b. Distinct (if b then entries else (k, a) ∷ rest)) (sym other)
            (
              find-erase_other entries key k (λ e. ground arith) ∙ d.0,
              erase-Distinct entries key d.1,
            )
    ]

find-inhabited :
    (entries : List (ℕ × ℕ)) (key socket : ℕ) → find entries key ≡ some socket → 0 < length entries
find-inhabited [] key socket found = absurd (ground arith)
find-inhabited (entry ∷ entries) key socket found = omega arith

-- In a vector with distinct keys, none of them 0, removing a link number that is there gives its
-- socket, after which the number is not found, every other number is found as before, the keys are
-- distinct, and the iterator stands at the end, wherever it stood.
pub remove_by_link_no-find :
    (v : SocketVector) (link_no other socket : ℕ)
    → Distinct v.sockets
    → find v.sockets 0 ≡ none
    → find_socket v link_no ≡ some socket
    → other ≢ link_no
    → ((remove_by_link_no v link_no).1 ≡ some socket)
      × (find_socket (remove_by_link_no v link_no).0 link_no ≡ none)
      × (find_socket (remove_by_link_no v link_no).0 other ≡ find_socket v other)
      × ((remove_by_link_no v link_no).0.current ≡ none)
      × Distinct (remove_by_link_no v link_no).0.sockets
unfolding remove_by_link_no find_socket
remove_by_link_no-find v link_no other socket d zero_free there ne =
    let gone = find-erase v.sockets link_no d in
    let kept = find-erase_other v.sockets link_no other (λ e. ne (sym e)) in
    let some_left = find-inhabited v.sockets link_no socket there in
    let not_zero : link_no ≢ 0 = λ z. ground arith in
    let zero_kept = find-erase_other v.sockets link_no 0 not_zero in
    let left : (remove_by_link_no v link_no).0.sockets ≡ erase v.sockets link_no = ground arith in
    (
      ground arith,
      ground arith,
      ground arith,
      ground arith,
      subst Distinct (sym left) (erase-Distinct v.sockets link_no d),
    )
