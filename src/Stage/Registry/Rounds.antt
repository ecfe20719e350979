-- ===== src/Stage/Registry/Rounds.antt =====
-- `NextSocket` takes the sockets in turn.
use linux_stage_asio.Prelude.{
  ℕ, zero, suc, ◌+◌, ◌≡◌, refl, sym, ap, subst, ◌∙◌, inl, inr, Option, none, some, List, [], ◌∷◌,
  ◌++◌, map, append-nil, append_assoc, arith, ◌==◌, Bool-cases, length, length-append,
}
use linux_stage_asio.Stage.Registry.{SocketVector, next_socket, find, following, first_key}

abbrev pub keys : List (ℕ × ℕ) → List ℕ
keys = map (λ (entry : ℕ × ℕ). entry.0)

abbrev pub values : List (ℕ × ℕ) → List ℕ
values = map (λ (entry : ℕ × ℕ). entry.1)

-- The keys of a map are distinct.
abbrev pub Distinct : List (ℕ × ℕ) → Type 0
Distinct [] = Unit
Distinct ((k, _) ∷ entries) = (find entries k ≡ none) × Distinct entries

-- The sockets that some calls of `NextSocket` give, and the vector they leave.
abbrev pub rounds : ℕ → SocketVector → List (Option ℕ) × SocketVector
rounds zero v = ([], v)
rounds (suc n) v =
    let (next, socket) = next_socket v in
    let (sockets, last) = rounds n next in (socket ∷ sockets, last)

find_here :
    (front rest : List (ℕ × ℕ)) (k a : ℕ) → (b : ℕ) × (find (front ++ (k, a) ∷ rest) k ≡ some b)
find_here [] rest k a = (a, ground arith)
find_here ((j, c) ∷ front) rest k a =
    let (b, found) = find_here front rest k a in
    elim (Bool-cases (j == k)) [ inl same ↦ (c, ground arith) | inr other ↦ (b, ground arith) ]

-- A key stands in one place only.
Distinct-front :
    (front rest : List (ℕ × ℕ)) (k a : ℕ) → Distinct (front ++ (k, a) ∷ rest) → find front k ≡ none
Distinct-front [] rest k a d = refl
Distinct-front ((j, c) ∷ front) rest k a d =
    let (b, found) = find_here front rest k a in
    let tail = Distinct-front front rest k a d.1 in ground (arith, d.0)

find_append :
    (front rest : List (ℕ × ℕ)) (k a : ℕ)
    → find front k ≡ none
    → find (front ++ (k, a) ∷ rest) k ≡ some a
find_append [] rest k a absent = ground arith
find_append ((j, c) ∷ front) rest k a absent = ground (arith, find_append front rest k a)

following_append :
    (front rest : List (ℕ × ℕ)) (k a : ℕ)
    → find front k ≡ none
    → following (front ++ (k, a) ∷ rest) k ≡ first_key rest
following_append [] rest k a absent = ground arith
following_append ((j, c) ∷ front) rest k a absent = ground (arith, following_append front rest k a)

-- The key that the iterator stands on once it has passed some entries.
abbrev last_key : ℕ → List (ℕ × ℕ) → ℕ
last_key k [] = k
last_key k ((j, _) ∷ entries) = last_key j entries

abbrev at : SocketVector → ℕ → SocketVector
at v k = record v { current = some k }

next_socket_step :
    (v : SocketVector) (front rest : List (ℕ × ℕ)) (k a j b : ℕ)
    → v.sockets ≡ front ++ (k, a) ∷ (j, b) ∷ rest
    → Distinct v.sockets
    → next_socket (at v k) ≡ (at v j, some b)
unfolding next_socket
next_socket_step v front rest k a j b is d =
    let absent = Distinct-front front ((j, b) ∷ rest) k a (subst Distinct is d) in
    let onward : following v.sockets k ≡ some j =
      ap (λ t. following t k) is ∙ following_append front ((j, b) ∷ rest) k a absent in
    let split : v.sockets ≡ (front ++ (k, a) ∷ []) ++ (j, b) ∷ rest =
      is ∙ sym (append_assoc front ((k, a) ∷ []) ((j, b) ∷ rest)) in
    let there : find v.sockets j ≡ some b =
      ap (λ t. find t j) split
      ∙ find_append (front ++ (k, a) ∷ []) rest j b
          (Distinct-front (front ++ (k, a) ∷ []) rest j b (subst Distinct split d)) in
    ground (arith, onward, there, ap length is, length-append front ((k, a) ∷ (j, b) ∷ rest))

-- Nothing follows the last key.
following-last_key :
    (ys : List (ℕ × ℕ)) (xs front : List (ℕ × ℕ)) (k a : ℕ)
    → xs ≡ front ++ (k, a) ∷ ys
    → Distinct xs
    → following xs (last_key k ys) ≡ none
following-last_key [] xs front k a is d =
    ap (λ t. following t k) is
    ∙ following_append front [] k a (Distinct-front front [] k a (subst Distinct is d))
following-last_key ((j, b) ∷ ys) xs front k a is d =
    following-last_key ys xs (front ++ (k, a) ∷ []) j b
      (is ∙ sym (append_assoc front ((k, a) ∷ []) ((j, b) ∷ ys))) d

next_socket_turn :
    (v : SocketVector) (rest : List (ℕ × ℕ)) (last j b : ℕ)
    → following v.sockets last ≡ none
    → v.sockets ≡ (j, b) ∷ rest
    → next_socket (at v last) ≡ (at v j, some b)
unfolding next_socket
next_socket_turn v rest last j b onward starts = ground arith

-- A walk over the entries behind the iterator.
rounds_walk :
    (ys : List (ℕ × ℕ)) (v : SocketVector) (front rest : List (ℕ × ℕ)) (k a : ℕ)
    → v.sockets ≡ front ++ (k, a) ∷ (ys ++ rest)
    → Distinct v.sockets
    → rounds (length ys) (at v k) ≡ (map some (values ys), at v (last_key k ys))
rounds_walk [] v front rest k a is d = refl
rounds_walk ((j, b) ∷ ys) v front rest k a is d =
    let split : v.sockets ≡ (front ++ (k, a) ∷ []) ++ (j, b) ∷ (ys ++ rest) =
      is ∙ sym (append_assoc front ((k, a) ∷ []) ((j, b) ∷ (ys ++ rest))) in
    let ih = rounds_walk ys v (front ++ (k, a) ∷ []) rest j b split d in
    ground (arith, next_socket_step v front (ys ++ rest) k a j b is d, ih)

rounds_then :
    (m n : ℕ) (v w u : SocketVector) (xs ys : List (Option ℕ))
    → rounds m v ≡ (xs, w)
    → rounds n w ≡ (ys, u)
    → rounds (m + n) v ≡ (xs ++ ys, u)
rounds_then zero n v w u xs ys first second = let none_yet : n ≡ 0 + n = omega arith in ground arith
rounds_then (suc m) n v w u xs ys first second =
    let (next, socket) = next_socket v in
    let more : suc m + n ≡ suc (m + n) = omega arith in
    let ih = rounds_then m n next w u (rounds m next).0 ys (ground arith) second in
    rw more (ground arith)

map-append :
    (xs ys : List (ℕ × ℕ))
    → map some (values (xs ++ ys)) ≡ map some (values xs) ++ map some (values ys)
map-append [] ys = refl
map-append (x ∷ xs) ys = ap (◌∷◌ (some x.1)) (map-append xs ys)

last_key-append : (k j a : ℕ) (xs : List (ℕ × ℕ)) → last_key k (xs ++ (j, a) ∷ []) ≡ j
last_key-append k j a [] = refl
last_key-append k j a ((i, _) ∷ xs) = last_key-append i j a xs

-- A whole round, from an iterator on the last entry of `(j, b) ∷ ws`.
rounds_whole :
    (v : SocketVector) (front back ws : List (ℕ × ℕ)) (k a j b : ℕ)
    → v.sockets ≡ front ++ (k, a) ∷ back
    → v.sockets ≡ (j, b) ∷ (ws ++ back)
    → last_key j ws ≡ k
    → Distinct v.sockets
    → rounds (length back + suc (length ws)) (at v k)
      ≡ (map some (values back) ++ some b ∷ map some (values ws), at v k)
rounds_whole v front back ws k a j b is starts last d =
    let to_end =
      rounds_walk back v front [] k a (is ∙ ap (λ t. front ++ (k, a) ∷ t) (sym (append-nil back)))
        d in
    let turn =
      next_socket_turn v (ws ++ back) (last_key k back) j b
        (following-last_key back v.sockets front k a is d) starts in
    let on = rounds_walk ws v [] back j b starts d in
    let again : rounds (suc (length ws)) (at v (last_key k back))
        ≡ (some b ∷ map some (values ws), at v k) =
      ground (arith, turn, on, last) in
    rounds_then (length back) (suc (length ws)) (at v k) (at v (last_key k back)) (at v k) _ _
      to_end again

-- From an iterator on any entry of a vector with distinct keys, as many calls of `NextSocket` as there
-- are sockets give every socket once, those behind the iterator first, then those in front of it
-- and its own at last, and leave the vector as it was.
pub next_socket-rounds :
    (v : SocketVector) (front back : List (ℕ × ℕ)) (k a : ℕ)
    → v.sockets ≡ front ++ (k, a) ∷ back
    → v.current ≡ some k
    → Distinct v.sockets
    → rounds (length v.sockets) v ≡ (map some (values (back ++ (front ++ (k, a) ∷ []))), v)
next_socket-rounds v [] back k a is on d =
    let here : v ≡ at v k = ground arith in
    let n : length v.sockets ≡ length back + 1 = omega (arith, ap length is) in
    let whole = rounds_whole v [] back [] k a k a is is refl d in
    let order = map-append back ((k, a) ∷ []) in ground (arith, here, n, whole, order)
next_socket-rounds v ((j, b) ∷ front) back k a is on d =
    let ws = front ++ (k, a) ∷ [] in
    let here : v ≡ at v k = ground arith in
    let n : length v.sockets ≡ length back + suc (length ws) = omega (
      arith,
      ap length is,
      length-append front ((k, a) ∷ back),
      length-append front ((k, a) ∷ []),
    ) in
    let starts : v.sockets ≡ (j, b) ∷ (ws ++ back) =
      is ∙ ap (λ t. (j, b) ∷ t) (sym (append_assoc front ((k, a) ∷ []) back)) in
    let whole =
      rounds_whole v ((j, b) ∷ front) back ws k a j b is starts (last_key-append j k a front) d in
    let order = map-append back ((j, b) ∷ ws) in ground (arith, here, n, whole, order)
