-- ===== src/Core/LinkedList.antt =====
-- stage/core/LinkedList.h: the doubly linked list of nodes that their owners hold, at the pointers to
-- timers that the scheduler keeps in it. A pointer is the address of a node, `none` for NULL, and the
-- list comes with the memory of the nodes. `fault` is the use of a NULL pointer. `AddBefore` copies
-- a node where it means to keep a pointer, and no instance of it compiles.
pub mod Links
pub mod Splices
pub mod Additions
pub mod Removals
pub mod Walks
use linux_stage_asio.Prelude.{
  ℕ, zero, suc, ◌+◌, ◌-◌, Bool, true, false, Option, none, some, [], ◌∷◌, leb, ◌==◌, if◌then◌else◌,
}
use linux_stage_asio.Prelude.Outcome.{Outcome, done, fault}

abbrev pub Pointer : Type 0
Pointer = Option ℕ

-- `owned` says that `LinkedList_` is this list.
pub record Node : Type 0 where
  pub previous : Pointer
  pub next : Pointer
  pub value : Pointer
  pub owned : Bool

pub record LinkedList : Type 0 where
  pub first : Pointer
  pub last : Pointer
  pub count : ℕ
  pub nodes : ℕ → Node

abbrev pub same_pointer : Pointer → Pointer → Bool
same_pointer none none = true
same_pointer none (some q) = false
same_pointer (some p) none = false
same_pointer (some p) (some q) = p == q

abbrev pub update : (ℕ → Node) → ℕ → Node → ℕ → Node
update nodes p n q = if p == q then n else nodes q

-- Assignments through a pointer that is not NULL.
abbrev pub set_next : (ℕ → Node) → ℕ → Pointer → ℕ → Node
set_next nodes p q = update nodes p (record (nodes p) { next = q })

abbrev pub set_previous : (ℕ → Node) → ℕ → Pointer → ℕ → Node
set_previous nodes p q = update nodes p (record (nodes p) { previous = q })

abbrev pub set_owned : (ℕ → Node) → ℕ → Bool → ℕ → Node
set_owned nodes p b = update nodes p (record (nodes p) { owned = b })

-- `LinkedList_`, `Next` and `Previous` of a node set to NULL.
abbrev pub detach : (ℕ → Node) → ℕ → ℕ → Node
detach nodes p = update nodes p (record (nodes p) { previous = none; next = none; owned = false })

-- `if (current != NULL) current->Previous = q`
abbrev pub previous_of : (ℕ → Node) → Pointer → Pointer → ℕ → Node
previous_of nodes none q = nodes
previous_of nodes (some p) q = set_previous nodes p q

abbrev pub next_of : (ℕ → Node) → Pointer → Pointer → ℕ → Node
next_of nodes none q = nodes
next_of nodes (some p) q = set_next nodes p q

-- A list of one node.
abbrev pub only : LinkedList → ℕ → LinkedList
only l v = record {
  first = some v;
  last = some v;
  count = 1;
  nodes = set_owned (detach l.nodes v) v true;
}

unfoldable pub add_first : LinkedList → Pointer → Outcome (LinkedList × Bool)
add_first l none = done (l, false)
add_first l (some v) =
    let clean = detach l.nodes v in
    elim l.last [
      | none ↦ done (only l v, true)
      | some _ ↦ elim l.first [
        | none ↦ fault
        | some current ↦ done (
          record l {
            first = some v;
            count = l.count + 1;
            nodes =
                set_owned (set_previous (set_next clean v (some current)) current (some v)) v true;
          },
          true,
        )
      ]
    ]

-- The assignments of `AddAfter` to the two nodes and to `current`, which stood behind the first.
abbrev pub place : (ℕ → Node) → ℕ → ℕ → Pointer → ℕ → Node
place clean node value current =
    let linked = previous_of (set_next clean node (some value)) current (some value) in
    set_owned (set_next (set_previous linked value (some node)) value current) value true

unfoldable pub add_after : LinkedList → Pointer → Pointer → LinkedList × Bool
add_after l none value = (l, false)
add_after l (some node) none = (l, false)
add_after l (some node) (some value) =
    let clean = detach l.nodes value in
    (
      record l {
        last = if same_pointer (some node) l.last then some value else l.last;
        count = l.count + 1;
        nodes = place clean node value (clean node).next;
      },
      true,
    )

unfoldable pub add_last : LinkedList → Pointer → LinkedList × Bool
unfolding add_after
add_last l none = (l, false)
add_last l (some v) = elim l.last [
  | none ↦ (only l v, true)
  | some last ↦ add_after (record l { nodes = detach l.nodes v }) (some last) (some v)
]

-- `m_count--`, and what is done when it comes to 0; `current` is the new end.
unfoldable pub remove_first : LinkedList → LinkedList × Bool
remove_first l = elim l.first [
  | none ↦ (l, false)
  | some first ↦
      let current = (l.nodes first).next in
      let left = previous_of (detach l.nodes first) current none in
      (
        if leb l.count 1
            then record { first = none; last = none; count = 0; nodes = left }
            else record l { first = current; count = l.count - 1; nodes = left },
        true,
      )
]

unfoldable pub remove_last : LinkedList → LinkedList × Bool
remove_last l = elim l.last [
  | none ↦ (l, false)
  | some last ↦
      let current = (l.nodes last).previous in
      let left = next_of (detach l.nodes last) current none in
      (
        if leb l.count 1
            then record { first = none; last = none; count = 0; nodes = left }
            else record l { last = current; count = l.count - 1; nodes = left },
        true,
      )
]

-- `Remove` of a node between two others.
unfoldable pub unlink : LinkedList → ℕ → Outcome (LinkedList × Bool)
unlink l node =
    let previous = (l.nodes node).previous in
    let next = (l.nodes node).next in
    elim previous [
      | none ↦ fault
      | some p ↦ elim next [
        | none ↦ fault
        | some n ↦
            let left = detach (set_previous (set_next l.nodes p (some n)) n (some p)) node in
            done (
              if leb l.count 1
                  then record { first = none; last = none; count = 0; nodes = left }
                  else record l { count = l.count - 1; nodes = left },
              true,
            )
      ]
    ]

unfoldable pub remove : LinkedList → Pointer → Outcome (LinkedList × Bool)
unfolding remove_first remove_last unlink
remove l none = done (l, false)
remove l (some node) =
    if same_pointer (some node) l.first
    then done (remove_first l)
    else if same_pointer (some node) l.last
    then done (remove_last l)
    else unlink l node

-- The loops follow `Next` until NULL; `none` means that the rounds ran out.
unfoldable pub find_from : (ℕ → Node) → ℕ → Pointer → Pointer → Option Pointer
find_from nodes zero i value = none
find_from nodes (suc rounds) i value = elim i [
  | none ↦ some none
  | some node ↦
      let rest = find_from nodes rounds (nodes node).next value in
      if same_pointer (nodes node).value value then some (some node) else rest
]

unfoldable pub find : LinkedList → ℕ → Pointer → Option Pointer
unfolding find_from
find l rounds value = find_from l.nodes rounds l.first value

unfoldable pub detach_from : ℕ → (ℕ → Node) → Pointer → Option (ℕ → Node)
detach_from zero nodes i = none
detach_from (suc rounds) nodes i = elim i [
  | none ↦ some nodes
  | some node ↦ detach_from rounds (detach nodes node) (nodes node).next
]

abbrev pub forgotten : LinkedList → (ℕ → Node) → LinkedList
forgotten l left = record { first = none; last = none; count = 0; nodes = left }

unfoldable pub clear : LinkedList → Bool → ℕ → Option LinkedList
unfolding detach_from
clear l thorough rounds =
    if thorough
    then elim (detach_from rounds l.nodes l.first) [
      | none ↦ none
      | some left ↦ some (forgotten l left)
    ]
    else some (forgotten l l.nodes)
