-- ===== src/Core/LinkedList/Links.antt =====
-- core/LinkedList.h: the list of addresses that the pointers of a linked list stand for.
use linux_stage_asio.Prelude.{
  ℕ, ◌≡◌, refl, sym, ap, ◌∙◌, ◌≢◌, ◌⊎◌, inl, inr, true, none, some, List, [], ◌∷◌, ◌++◌, length,
  All, All-append,
}
use linux_stage_asio.Core.LinkedList.{Pointer, Node, LinkedList}

-- The first address, and the one before a front.
abbrev pub head_or : List ℕ → Pointer → Pointer
head_or [] q = q
head_or (x ∷ xs) q = some x

abbrev pub last_or : Pointer → List ℕ → Pointer
last_or p [] = p
last_or p (x ∷ xs) = last_or (some x) xs

abbrev pub Absent : ℕ → List ℕ → Type 0
Absent x = All (λ y. y ≢ x)

abbrev pub Distinct : List ℕ → Type 0
Distinct [] = Unit
Distinct (x ∷ xs) = Absent x xs × Distinct xs

-- From behind `p` the nodes of `xs` are linked in both directions, up to `q`.
abbrev pub Links : (ℕ → Node) → Pointer → List ℕ → Pointer → Type 0
Links m p [] q = Unit
Links m p (x ∷ xs) q =
    ((m x).previous ≡ p)
    × ((m x).next ≡ head_or xs q)
    × ((m x).owned ≡ true)
    × Links m (some x) xs q

pub record Represents (l : LinkedList) (xs : List ℕ) : Type 0 where
  pub front : l.first ≡ head_or xs none
  pub back : l.last ≡ last_or none xs
  pub counted : l.count ≡ length xs
  pub distinct : Distinct xs
  pub chain : Links l.nodes none xs none

-- A segment survives any change that spares its nodes.
pub Links-frame :
    (m m' : ℕ → Node) (p : Pointer) (xs : List ℕ) (q : Pointer)
    → Links m p xs q
    → All (λ y. m' y ≡ m y) xs
    → Links m' p xs q
Links-frame m m' p [] q links same = tt
Links-frame m m' p (x ∷ xs) q links same = (
  ap (λ n. n.previous) same.0 ∙ links.0,
  ap (λ n. n.next) same.0 ∙ links.1,
  ap (λ n. n.owned) same.0 ∙ links.2,
  Links-frame m m' (some x) xs q links.3 same.1,
)

pub All-map {ℓ κ μ} :
    {A : Type ℓ} {P : A → Type κ} {Q : A → Type μ} (xs : List A)
    → ((x : A) → P x → Q x)
    → All P xs
    → All Q xs
All-map [] f h = tt
All-map (x ∷ xs) f h = (f x h.0, All-map xs f h.1)

pub All-front {ℓ κ} : {A : Type ℓ} (P : A → Type κ) (xs ys : List A) → All P (xs ++ ys) → All P xs
All-front P [] ys h = tt
All-front P (x ∷ xs) ys h = (h.0, All-front P xs ys h.1)

pub All-back {ℓ κ} : {A : Type ℓ} (P : A → Type κ) (xs ys : List A) → All P (xs ++ ys) → All P ys
All-back P [] ys h = h
All-back P (x ∷ xs) ys h = All-back P xs ys h.1

-- The first of a list that goes on with `a`.
abbrev pub front_of : List ℕ → ℕ → ℕ
front_of [] a = a
front_of (x ∷ xs) a = x

pub head_or-append :
    (xs : List ℕ) (a : ℕ) (ys : List ℕ) (q : Pointer)
    → head_or (xs ++ a ∷ ys) q ≡ some (front_of xs a)
head_or-append [] a ys q = refl
head_or-append (x ∷ xs) a ys q = refl

pub last_or-append :
    (p : Pointer) (xs : List ℕ) (a : ℕ) (ys : List ℕ)
    → last_or p (xs ++ a ∷ ys) ≡ last_or (some a) ys
last_or-append p [] a ys = refl
last_or-append p (x ∷ xs) a ys = last_or-append (some x) xs a ys

-- The last of a list.
pub snoc-cases : (xs : List ℕ) → (xs ≡ []) ⊎ ((us : List ℕ) × (a : ℕ) × (xs ≡ us ++ a ∷ []))
snoc-cases [] = inl refl
snoc-cases (x ∷ xs) = elim (snoc-cases xs) [
  | inl e ↦ inr ([], x, ap (◌∷◌ x) e)
  | inr (us, a, e) ↦ inr (x ∷ us, a, ap (◌∷◌ x) e)
]

-- Of a node among distinct ones: it stands nowhere else.
pub Distinct-apart :
    (us : List ℕ) (a : ℕ) (vs : List ℕ) → Distinct (us ++ a ∷ vs) → Absent a us × Absent a vs
Distinct-apart [] a vs d = (tt, d.0)
Distinct-apart (x ∷ us) a vs d =
    let rest = Distinct-apart us a vs d.1 in
    ((λ e. (All-back _ us (a ∷ vs) d.0).0 (sym e), rest.0), rest.1)

-- Without the node behind `a` the others are distinct, and it is none of them.
pub Distinct-remove :
    (us : List ℕ) (a v : ℕ) (vs : List ℕ)
    → Distinct (us ++ a ∷ v ∷ vs)
    → Distinct (us ++ a ∷ vs) × Absent v (us ++ a ∷ vs)
Distinct-remove [] a v vs d = ((d.0.1, d.1.1), ((λ e. d.0.0 (sym e)), d.1.0))
Distinct-remove (x ∷ us) a v vs d =
    let (rest, out) = Distinct-remove us a v vs d.1 in
    let behind = All-back _ us (a ∷ v ∷ vs) d.0 in
    (
      (All-append _ us (a ∷ vs) (All-front _ us (a ∷ v ∷ vs) d.0) (behind.0, behind.1.1), rest),
      ((λ e. behind.1.0 (sym e)), out),
    )

pub Distinct-insert_behind :
    (us : List ℕ) (a v : ℕ) (vs : List ℕ)
    → Distinct (us ++ a ∷ vs)
    → Absent v (us ++ a ∷ vs)
    → Distinct (us ++ a ∷ v ∷ vs)
Distinct-insert_behind [] a v vs d out = ((λ e. out.0 (sym e), d.0), (out.1, d.1))
Distinct-insert_behind (x ∷ us) a v vs d out =
    let split = All-back _ us (a ∷ vs) d.0 in
    (
      All-append _ us (a ∷ v ∷ vs) (All-front _ us (a ∷ vs) d.0)
          (split.0, (λ e. out.0 (sym e), split.1)),
      Distinct-insert_behind us a v vs d.1 out.1,
    )
