-- ===== src/Core/LinkedList/Walks.antt =====
-- core/LinkedList.h: the loops of `Find` and `Clear` end, as far as the list goes.
use linux_stage_asio.Prelude.{
  ℕ, zero, suc, ◌<◌, ◌≡◌, refl, ap, ◌∙◌, inl, inr, true, false, none, some, List, [], ◌∷◌, arith,
  if◌then◌else◌, Bool-cases, length, All,
}
use linux_stage_asio.Core.LinkedList.{
  Pointer, Node, LinkedList, same_pointer, detach, find_from, find, detach_from, forgotten, clear,
}
use linux_stage_asio.Core.LinkedList.Links.{head_or, Absent, Distinct, Links, Represents}
use linux_stage_asio.Core.LinkedList.Additions.{Links-detach}

-- The first address whose node has the value.
abbrev pub first_with : (ℕ → Node) → Pointer → List ℕ → Pointer
first_with m value [] = none
first_with m value (x ∷ xs) =
    if same_pointer (m x).value value then some x else first_with m value xs

find_from-first_with :
    (m : ℕ → Node) (rounds : ℕ) (p : Pointer) (xs : List ℕ) (value : Pointer)
    → Links m p xs none
    → length xs < rounds
    → find_from m rounds (head_or xs none) value ≡ some (first_with m value xs)
unfolding find_from
find_from-first_with m zero p xs value links h = absurd (omega arith)
find_from-first_with m (suc rounds) p [] value links h = refl
find_from-first_with m (suc rounds) p (x ∷ xs) value links h =
    elim (Bool-cases (same_pointer (m x).value value)) [
      | inl hit ↦ rw hit
      | inr miss ↦
          rw (miss, links.1) (find_from-first_with m rounds (some x) xs value links.3 (omega arith))
    ]

-- `Find` ends within a round for each node and one more, with the first node that has the value, or
-- NULL when there is none.
pub find-first_with :
    (l : LinkedList) (xs : List ℕ) (rounds : ℕ) (value : Pointer)
    → Represents l xs
    → length xs < rounds
    → find l rounds value ≡ some (first_with l.nodes value xs)
unfolding find
find-first_with l xs rounds value r h =
    rw r.front (find_from-first_with l.nodes rounds none xs value r.chain h)

abbrev pub Unlinked : (ℕ → Node) → ℕ → Type 0
Unlinked m y = ((m y).previous ≡ none) × ((m y).next ≡ none) × ((m y).owned ≡ false)

-- What is left when the nodes of a list are let go.
pub record Released (m m' : ℕ → Node) (xs : List ℕ) : Type 0 where
  pub inside : All (Unlinked m') xs
  pub outside : (y : ℕ) → Absent y xs → m' y ≡ m y
  pub values : (y : ℕ) → (m' y).value ≡ (m y).value

detach_from-Released :
    (m : ℕ → Node) (rounds : ℕ) (p : Pointer) (xs : List ℕ)
    → Links m p xs none
    → Distinct xs
    → length xs < rounds
    → (m' : ℕ → Node) × (detach_from rounds m (head_or xs none) ≡ some m') × Released m m' xs
unfolding detach_from
detach_from-Released m zero p xs links d h = absurd (omega arith)
detach_from-Released m (suc rounds) p [] links d h =
    (m, refl, record { inside = tt; outside = λ y g. refl; values = λ y. refl })
detach_from-Released m (suc rounds) p (x ∷ xs) links d h =
    let (m', ran, r) =
      detach_from-Released (detach m x) rounds (some x) xs
        (Links-detach m x (some x) xs none d.0 links.3) d.1 (omega arith) in
    let here : m' x ≡ detach m x x = r.outside x d.0 in
    (
      m',
      rw links.1 ran,
      record {
        inside = (
          (
            ap (λ n. n.previous) here ∙ ground arith,
            ap (λ n. n.next) here ∙ ground arith,
            ap (λ n. n.owned) here ∙ ground arith,
          ),
          r.inside,
        );
        outside = λ y g. r.outside y g.1 ∙ ground (arith, g.0);
        values = λ y. r.values y ∙ ground arith;
      },
    )

-- `Clear(true)` ends, leaves an empty list, and takes the pointers of every node that was in it; other
-- nodes stay as they are.
pub clear-Released :
    (l : LinkedList) (xs : List ℕ) (rounds : ℕ)
    → Represents l xs
    → length xs < rounds
    → (l' : LinkedList) × (clear l true rounds ≡ some l')
      × Represents l' []
      × Released l.nodes l'.nodes xs
unfolding clear
clear-Released l xs rounds r h =
    let (m', ran, out) = detach_from-Released l.nodes rounds none xs r.chain r.distinct h in
    (
      forgotten l m',
      rw (r.front, ran),
      record { front = refl; back = refl; counted = refl; distinct = tt; chain = tt },
      out,
    )
