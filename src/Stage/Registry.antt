-- ===== src/Stage/Registry.antt =====
-- stage/stage/StageSocketCommunication.cpp: the sockets of one link type, `SocketVectorObject`, the
-- table of them in a `Server`, and `NewLinkNo`. A socket is its identity, a number. The hash map is
-- the list of its entries in the order of iteration, which erasing an entry keeps.
pub mod Rounds
pub mod Entries
pub mod LinkNumbers
use linux_stage_asio.Prelude.{
  ℕ, zero, suc, ◌+◌, Bool, false, not, Option, none, some, List, [], ◌∷◌, ◌==◌, if◌then◌else◌,
  length,
}
use linux_stage_asio.Prelude.Words.{u16}

-- `current` is the key that the iterator stands on, `none` for `end()`.
pub record SocketVector : Type 0 where
  pub sockets : List (ℕ × ℕ)
  pub current : Option ℕ
  pub allow_accept : Bool

-- `SocketVectorObject::Clear(false)`, which the constructor calls
abbrev pub empty_vector : SocketVector
empty_vector = record { sockets = []; current = none; allow_accept = false }

abbrev pub find : {A : Type 0} → List (ℕ × A) → ℕ → Option A
find [] key = none
find ((k, a) ∷ entries) key = if k == key then some a else find entries key

abbrev pub erase : {A : Type 0} → List (ℕ × A) → ℕ → List (ℕ × A)
erase [] key = []
erase ((k, a) ∷ entries) key = if k == key then entries else (k, a) ∷ erase entries key

-- The key of `begin()`.
abbrev pub first_key : List (ℕ × ℕ) → Option ℕ
first_key [] = none
first_key ((k, _) ∷ entries) = some k

-- `++it` for an iterator that stands on the key.
abbrev pub following : List (ℕ × ℕ) → ℕ → Option ℕ
following [] key = none
following ((k, _) ∷ entries) key = if k == key then first_key entries else following entries key

-- What an iterator points to.
abbrev pub pointed : List (ℕ × ℕ) → Option ℕ → Option ℕ
pointed entries none = none
pointed entries (some key) = find entries key

-- `NextSocket`
unfoldable pub next_socket : SocketVector → SocketVector × Option ℕ
next_socket v =
    let moved : Option ℕ = elim v.current [ none ↦ none | some key ↦ following v.sockets key ] in
    let turned : Option ℕ = elim moved [ none ↦ first_key v.sockets | some key ↦ some key ] in
    if length v.sockets == 0
    then (record v { current = none }, none)
    else (record v { current = turned }, pointed v.sockets turned)

-- `FindSocket`
unfoldable pub find_socket : SocketVector → ℕ → Option ℕ
find_socket v link_no = find v.sockets link_no

-- `SocketVectorObject::RemoveByLinkNo`: the socket, or `none` for `false`
unfoldable pub remove_by_link_no : SocketVector → ℕ → SocketVector × Option ℕ
remove_by_link_no v link_no =
    let onward : Option ℕ = elim v.current [
      | none ↦ none
      | some key ↦ if key == link_no then following v.sockets key else none
    ] in
    let current_key : ℕ = elim onward [ none ↦ 0 | some key ↦ key ] in
    let rest = erase v.sockets link_no in
    let reset : Option ℕ =
      if not (current_key == 0)
      then none
      else elim (find rest current_key) [ none ↦ none | some _ ↦ some current_key ] in
    if length v.sockets == 0
    then (record v { current = none }, none)
    else elim (find v.sockets link_no) [
      | none ↦ (v, none)
      | some socket ↦ (record v { sockets = rest; current = reset }, some socket)
    ]

-- `sockets[linkNo] = socket`, before the map puts its entries in order
abbrev pub store : List (ℕ × ℕ) → ℕ → ℕ → List (ℕ × ℕ)
store [] key socket = (key, socket) ∷ []
store ((k, a) ∷ entries) key socket =
    let rest = store entries key socket in
    if k == key then (key, socket) ∷ entries else (k, a) ∷ rest

-- The last step of `ClientStageSocketHandler::ProcessAuthentication`, which keeps `current`. Adding to
-- a hash map may change the order of iteration of all of it: `arrange` gives the new one.
unfoldable pub add_socket : (List (ℕ × ℕ) → List (ℕ × ℕ)) → SocketVector → ℕ → ℕ → SocketVector
add_socket arrange v link_no socket =
    let current_key : ℕ =
      if length v.sockets == 0 then 0 else elim v.current [ none ↦ 0 | some key ↦ key ] in
    let entries = arrange (store v.sockets link_no socket) in
    record v {
      sockets = entries;
      current =
          if current_key == 0
          then none
          else elim (find entries current_key) [ none ↦ none | some _ ↦ some current_key ];
    }

-- The vector behind a pointer of the table, changed in place.
abbrev pub put : List (ℕ × Option SocketVector) → ℕ → SocketVector → List (ℕ × Option SocketVector)
put [] link_type v = []
put ((k, vector) ∷ table) link_type v =
    if k == link_type then (k, some v) ∷ table else (k, vector) ∷ put table link_type v

-- `Server::RemoveByLinkNo` on the table of one side, `none` for a null pointer in it: the table,
-- and the vector that the socket was taken from, `none` for `false`.
unfoldable pub remove_from_table :
    List (ℕ × Option SocketVector) → ℕ → ℕ → List (ℕ × Option SocketVector) × Option SocketVector
remove_from_table table link_type link_no = elim (find table link_type) [
  | none ↦ (table, none)
  | some vector ↦ elim vector [
    | none ↦ (table, none)
    | some v ↦
        let (left, removed) = remove_by_link_no v link_no in
        elim removed [
          | none ↦ (put table link_type left, none)
          | some _ ↦
              if length left.sockets == 0
              then (erase table link_type, some left)
              else (put table link_type left, some left)
        ]
  ]
]

-- `linkNo = ++_linkNoAtomic` until it is not 0, on a 16-bit counter.
abbrev pub next_id : ℕ → ℕ
next_id counter = if u16 (counter + 1) == 0 then 1 else u16 (counter + 1)

-- The loop of `NewLinkNo` from a counter: the link number, which is also the counter it leaves.
unfoldable pub search_link_no : List (ℕ × ℕ) → ℕ → ℕ → ℕ
search_link_no entries zero counter = counter
search_link_no entries (suc tries) counter =
    let id = next_id counter in
    let onward = search_link_no entries tries id in
    elim (find entries id) [ none ↦ id | some _ ↦ onward ]

-- `NewLinkNo` of a communication that is not disposed: the entries of the vector, or `none` when
-- there is no server, no vector or no entry.
unfoldable pub new_link_no : Option (List (ℕ × ℕ)) → ℕ → ℕ
new_link_no none counter = next_id counter
new_link_no (some entries) counter = search_link_no entries 0xffff counter
