-- ===== src/Tests/LinkedLists.antt =====
-- Linked lists of three nodes.
use linux_stage_asio.Prelude.{◌*◌, ◌≡◌, refl, true, false, none, some, [], ◌∷◌, arith}
use linux_stage_asio.Prelude.Outcome.{done}
use linux_stage_asio.Core.LinkedList.{
  LinkedList, add_after, add_last, remove, find, find_from, clear,
}
use linux_stage_asio.Core.LinkedList.Links.{Represents}
use linux_stage_asio.Core.LinkedList.Additions.{KeepsValues, add_last-Represents}
use linux_stage_asio.Core.LinkedList.Removals.{Removed, remove-Removed}
use linux_stage_asio.Core.LinkedList.Walks.{Released, clear-Released}

-- Nodes that hold twice their address.
abbrev nothing_yet : LinkedList
nothing_yet = record {
  first = none;
  last = none;
  count = 0;
  nodes = λ p. record { previous = none; next = none; value = some (2 * p); owned = false };
}

abbrev one : LinkedList
one = (add_last nothing_yet (some 5)).0

abbrev two : LinkedList
two = (add_last one (some 7)).0

abbrev three : LinkedList
three = (add_last two (some 9)).0

one-Represents : Represents one (5 ∷ [])
one-Represents =
    (add_last-Represents nothing_yet 5 []
      (record { front = refl; back = refl; counted = refl; distinct = tt; chain = tt }) tt).0

two-Represents : Represents two (5 ∷ 7 ∷ [])
two-Represents = (add_last-Represents one 7 (5 ∷ []) one-Represents (omega arith, tt)).0

three-Represents : Represents three (5 ∷ 7 ∷ 9 ∷ [])
three-Represents =
    (add_last-Represents two 9 (5 ∷ 7 ∷ []) two-Represents (omega arith, (omega arith, tt))).0

add_last-Represents_example : Represents three (5 ∷ 7 ∷ 9 ∷ []) × KeepsValues two three
add_last-Represents_example =
    add_last-Represents two 9 (5 ∷ 7 ∷ []) two-Represents (omega arith, (omega arith, tt))

remove-Removed_example :
    (l : LinkedList) × (remove three (some 7) ≡ done (l, true)) × Removed three l 7 (5 ∷ 9 ∷ [])
remove-Removed_example = remove-Removed three (5 ∷ []) 7 (9 ∷ []) three-Represents

clear-Released_example :
    (l : LinkedList) × (clear three true 4 ≡ some l)
    × Represents l []
    × Released three.nodes l.nodes (5 ∷ 7 ∷ 9 ∷ [])
clear-Released_example = clear-Released three (5 ∷ 7 ∷ 9 ∷ []) 4 three-Represents (omega arith)

-- The front, the back and the links of the list behind three additions.
three_ends : (three.first ≡ some 5) × (three.last ≡ some 9) × (three.count ≡ 3)
unfolding add_last add_after
three_ends = (refl, refl, refl)

three_middle : ((three.nodes 7).previous ≡ some 5) × ((three.nodes 7).next ≡ some 9)
unfolding add_last add_after
three_middle = (refl, refl)

-- A node that is searched for.
found_seven : find three 4 (some 14) ≡ some (some 7)
unfolding find find_from add_last add_after
found_seven = refl

-- Nothing to remove.
remove_null : remove three none ≡ done (three, false)
unfolding remove
remove_null = refl
