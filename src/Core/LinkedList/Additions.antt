-- ===== src/Core/LinkedList/Additions.antt =====
-- core/LinkedList.h: a node that is added comes to its place in the list of addresses.
use linux_stage_asio.Prelude.{
  ℕ, ◌+◌, ◌≡◌, refl, sym, ap, ◌∙◌, ◌≢◌, inl, inr, true, false, none, some, List, [], ◌∷◌, ◌++◌,
  append_assoc, arith, if◌then◌else◌, length-append,
}
use linux_stage_asio.Prelude.Outcome.{done, fault}
use linux_stage_asio.Core.LinkedList.{
  Pointer, Node, LinkedList, same_pointer, set_next, set_previous, set_owned, detach, only, place,
  add_first, add_after, add_last,
}
use linux_stage_asio.Core.LinkedList.Links.{
  head_or, last_or, Absent, Links, Represents, Links-frame, All-map, All-back, head_or-append,
  last_or-append, snoc-cases, Distinct-apart, Distinct-insert_behind,
}
use linux_stage_asio.Core.LinkedList.Splices.{SameBut, Inserted, off, Links-behind, Links-insert}

abbrev pub KeepsValues : LinkedList → LinkedList → Type 0
KeepsValues l l' = (y : ℕ) → (l'.nodes y).value ≡ (l.nodes y).value

pub Links-at :
    (m : ℕ → Node) (p : Pointer) (us : List ℕ) (a : ℕ) (vs : List ℕ) (q : Pointer)
    → Links m p (us ++ a ∷ vs) q
    → ((m a).previous ≡ last_or p us) × ((m a).next ≡ head_or vs q) × ((m a).owned ≡ true)
Links-at m p [] a vs q links = (links.0, links.1, links.2)
Links-at m p (x ∷ us) a vs q links = Links-at m (some x) us a vs q links.3

-- Of a node outside the list the links do not speak.
pub Links-detach :
    (m : ℕ → Node) (v : ℕ) (p : Pointer) (xs : List ℕ) (q : Pointer)
    → Absent v xs
    → Links m p xs q
    → Links (detach m v) p xs q
Links-detach m v p xs q out links =
    Links-frame m (detach m v) p xs q links (All-map xs (λ x h. ground arith) out)

pub some_ne : (x y : ℕ) → x ≢ y → some x ≢ some y
some_ne x y h e = h (cc)

place-Inserted :
    (m : ℕ → Node) (a v : ℕ) (b : Pointer)
    → a ≢ v
    → some a ≢ b
    → b ≢ some v
    → Inserted m (place (detach m v) a v b) (some a) b v
place-Inserted m a v none h k l = record {
  new_previous = ground arith;
  new_next = ground arith;
  new_owned = ground arith;
  before = λ x e. ground arith;
  behind = λ x e. ground arith;
}
place-Inserted m a v (some b) h k l = record {
  new_previous = ground arith;
  new_next = ground arith;
  new_owned = ground arith;
  before = λ x e. ground arith;
  behind = λ x e. ground arith;
}

place-SameBut :
    (m : ℕ → Node) (a v : ℕ) (b : Pointer) → SameBut m (place (detach m v) a v b) (some a) b v
place-SameBut m a v none y h k l = ground arith
place-SameBut m a v (some b) y h k l = ground arith

place-value :
    (m : ℕ → Node) (a v : ℕ) (b : Pointer) (y : ℕ)
    → (place (detach m v) a v b y).value ≡ (m y).value
place-value m a v none y = ground arith
place-value m a v (some b) y = ground arith

pub head-ne : (v : ℕ) (xs : List ℕ) → Absent v xs → head_or xs none ≢ some v
head-ne v [] h = cc
head-ne v (x ∷ xs) h = some_ne x v h.0

last-ne :
    (a x : ℕ) (vs : List ℕ)
    → Absent a (x ∷ vs)
    → same_pointer (some a) (last_or (some x) vs) ≡ false
last-ne a x [] out = ground (arith, out.0)
last-ne a x (y ∷ vs) out = last-ne a y vs out.1

-- The last pointer: it moves where the node was the last one.
last-insert :
    (us : List ℕ) (a v : ℕ) (vs : List ℕ) (last : Pointer)
    → last ≡ last_or none (us ++ a ∷ vs)
    → Absent a vs
    → (if same_pointer (some a) last then some v else last) ≡ last_or none (us ++ a ∷ v ∷ vs)
last-insert us a v [] last e out =
    rw (last_or-append none us a (v ∷ []), e, last_or-append none us a []) (ground arith)
last-insert us a v (x ∷ vs) last e out = rw (
  last_or-append none us a (v ∷ x ∷ vs),
  e,
  last_or-append none us a (x ∷ vs),
  last-ne a x vs out,
)

-- `AddAfter` a node of the list puts the new node behind it.
pub add_after-Represents :
    (l : LinkedList) (us : List ℕ) (a v : ℕ) (vs : List ℕ)
    → Represents l (us ++ a ∷ vs)
    → Absent v (us ++ a ∷ vs)
    → Represents (add_after l (some a) (some v)).0 (us ++ a ∷ v ∷ vs)
      × KeepsValues l (add_after l (some a) (some v)).0
unfolding add_after
add_after-Represents l us a v vs r out =
    let apart = Distinct-apart us a vs r.distinct in
    let v_ne = All-back _ us (a ∷ vs) out in
    let current : (detach l.nodes v a).next ≡ head_or vs none =
      ground (arith, Links-at l.nodes none us a vs none r.chain, v_ne.0) in
    rw current (
      record {
        front = r.front ∙ head_or-append us a vs none ∙ sym (head_or-append us a (v ∷ vs) none);
        back = last-insert us a v vs l.last r.back apart.1;
        counted =
            omega (arith, r.counted, length-append us (a ∷ vs), length-append us (a ∷ v ∷ vs));
        distinct = Distinct-insert_behind us a v vs r.distinct out;
        chain =
            Links-insert a v vs (place-SameBut l.nodes a v _) none us
              (place-Inserted l.nodes a v _ v_ne.0 (λ e. head-ne a vs apart.1 (sym e))
                (head-ne v vs v_ne.1))
              r.distinct out r.chain;
      },
      place-value l.nodes a v _,
    )

Represents-detach :
    (l : LinkedList) (v : ℕ) (xs : List ℕ)
    → Represents l xs
    → Absent v xs
    → Represents (record l { nodes = detach l.nodes v }) xs
Represents-detach l v xs r out = record {
  front = r.front;
  back = r.back;
  counted = r.counted;
  distinct = r.distinct;
  chain = Links-detach l.nodes v none xs none out r.chain;
}

only-Represents : (l : LinkedList) (v : ℕ) → Represents (only l v) (v ∷ [])
only-Represents l v = record {
  front = refl;
  back = refl;
  counted = refl;
  distinct = (tt, tt);
  chain = (ground arith, ground arith, ground arith, tt);
}

add_last_empty : (l : LinkedList) (v : ℕ) → l.last ≡ none → add_last l (some v) ≡ (only l v, true)
unfolding add_last
add_last_empty l v empty = λ i. elim (empty i) [
  | none ↦ (only l v, true)
  | some last ↦ add_after (record l { nodes = detach l.nodes v }) (some last) (some v)
]

add_last_full :
    (l : LinkedList) (v a : ℕ)
    → l.last ≡ some a
    → add_last l (some v) ≡ add_after (record l { nodes = detach l.nodes v }) (some a) (some v)
unfolding add_last
add_last_full l v a full = λ i. elim (full i) [
  | none ↦ (only l v, true)
  | some last ↦ add_after (record l { nodes = detach l.nodes v }) (some last) (some v)
]

-- `AddLast` of a node that is not in the list puts it at the end, and changes no value.
pub add_last-Represents :
    (l : LinkedList) (v : ℕ) (xs : List ℕ)
    → Represents l xs
    → Absent v xs
    → Represents (add_last l (some v)).0 (xs ++ v ∷ []) × KeepsValues l (add_last l (some v)).0
add_last-Represents l v xs r out = elim (snoc-cases xs) [
  | inl e ↦
      let empty : l.last ≡ none = rw e at r.back in
      rw (add_last_empty l v empty, e) (only-Represents l v, λ y. ground arith)
  | inr (us, a, e) ↦
      let full : l.last ≡ some a = r.back ∙ ap (last_or none) e ∙ last_or-append none us a [] in
      let r' = rw e at (Represents-detach l v xs r out) in
      let (added, kept) =
        add_after-Represents (record l { nodes = detach l.nodes v }) us a v [] r' (rw e at out) in
      rw (add_last_full l v a full, e, append_assoc us (a ∷ []) (v ∷ []))
        (added, λ y. kept y ∙ ground arith)
]

last_is :
    (x : ℕ) (xs : List ℕ) (l : LinkedList)
    → l.last ≡ last_or none (x ∷ xs)
    → (y : ℕ) × (l.last ≡ some y)
last_is x [] l e = (x, e)
last_is x (y ∷ xs) l e = last_is y xs l e

add_first_full :
    (l : LinkedList) (v x y : ℕ)
    → l.last ≡ some y
    → l.first ≡ some x
    → add_first l (some v)
      ≡ done (
        record l {
          first = some v;
          count = l.count + 1;
          nodes =
              set_owned (set_previous (set_next (detach l.nodes v) v (some x)) x (some v)) v true;
        },
        true,
      )
unfolding add_first
add_first_full l v x y full first = λ i. elim (full i) [
  | none ↦ done (only l v, true)
  | some _ ↦ elim (first i) [
    | none ↦ fault
    | some current ↦ done (
      record l {
        first = some v;
        count = l.count + 1;
        nodes =
            set_owned (set_previous (set_next (detach l.nodes v) v (some current)) current (some v))
              v true;
      },
      true,
    )
  ]
]

-- `AddFirst` of a node that is not in the list puts it in front, and changes no value.
pub add_first-Represents :
    (l : LinkedList) (v : ℕ) (xs : List ℕ)
    → Represents l xs
    → Absent v xs
    → (l' : LinkedList) × (add_first l (some v) ≡ done (l', true))
      × Represents l' (v ∷ xs)
      × KeepsValues l l'
unfolding add_first
add_first-Represents l v [] r out =
    let empty : l.last ≡ none = r.back in
    (only l v, rw empty, only-Represents l v, λ y. ground arith)
add_first-Represents l v (x ∷ xs) r out =
    let m = set_owned (set_previous (set_next (detach l.nodes v) v (some x)) x (some v)) v true in
    let first : l.first ≡ some x = r.front in
    let full = last_is x xs l r.back in
    let same : SameBut l.nodes m none (some x) v = λ y h k g. ground arith in
    let at_x : (y : ℕ)
        → some x ≡ some y
        → ((m y).previous ≡ some v)
          × ((m y).next ≡ (l.nodes y).next)
          × ((m y).owned ≡ (l.nodes y).owned) =
      λ y e. ground (arith, out.0) in
    (
      record l { first = some v; count = l.count + 1; nodes = m },
      add_first_full l v x full.0 full.1 first,
      record {
        front = refl;
        back = r.back;
        counted = omega (arith, r.counted);
        distinct = (out, r.distinct);
        chain = (
          ground (arith, out.0),
          ground (arith, out.0),
          ground arith,
          Links-behind none none (some v) v (x ∷ xs) same at_x (off (x ∷ xs)) out r.distinct
              r.chain,
        );
      },
      λ y. ground arith,
    )
