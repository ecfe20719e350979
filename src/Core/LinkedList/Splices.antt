-- ===== src/Core/LinkedList/Splices.antt =====
-- core/LinkedList.h: what pointers are to be set for a node to come between two others, or to leave
-- them, whatever memory results.
use linux_stage_asio.Prelude.{
  ℕ, ◌≡◌, refl, sym, ap, ◌∙◌, ◌≢◌, true, none, some, List, [], ◌∷◌, ◌++◌, All,
}
use linux_stage_asio.Core.LinkedList.{Pointer, Node}
use linux_stage_asio.Core.LinkedList.Links.{
  head_or, Absent, Distinct, Links, Links-frame, All-back, head_or-append,
}

-- Only `a`, `v` and `b` may differ between two memories.
abbrev pub SameBut : (ℕ → Node) → (ℕ → Node) → Pointer → Pointer → ℕ → Type 0
SameBut m m' a b v = (y : ℕ) → some y ≢ a → some y ≢ b → y ≢ v → m' y ≡ m y

-- `m'` has `v` between `a` and `b`, as far as pointers go.
pub record Inserted (m m' : ℕ → Node) (a b : Pointer) (v : ℕ) : Type 0 where
  pub new_previous : (m' v).previous ≡ a
  pub new_next : (m' v).next ≡ b
  pub new_owned : (m' v).owned ≡ true
  pub before :
      (x : ℕ)
      → a ≡ some x
      → ((m' x).previous ≡ (m x).previous) × ((m' x).next ≡ some v) × ((m' x).owned ≡ (m x).owned)
  pub behind :
      (x : ℕ)
      → b ≡ some x
      → ((m' x).previous ≡ some v) × ((m' x).next ≡ (m x).next) × ((m' x).owned ≡ (m x).owned)

-- `m'` has `a` and `b` side by side.
pub record Joined (m m' : ℕ → Node) (a b : Pointer) (v : ℕ) : Type 0 where
  pub before :
      (x : ℕ)
      → a ≡ some x
      → ((m' x).previous ≡ (m x).previous) × ((m' x).next ≡ b) × ((m' x).owned ≡ (m x).owned)
  pub behind :
      (x : ℕ)
      → b ≡ some x
      → ((m' x).previous ≡ a) × ((m' x).next ≡ (m x).next) × ((m' x).owned ≡ (m x).owned)

some-ne : (x y : ℕ) → x ≢ y → some x ≢ some y
some-ne x y h e = h (cc)

-- The nodes away from the splice.
far :
    {m m' : ℕ → Node} {a b : Pointer} {v : ℕ} (xs : List ℕ)
    → SameBut m m' a b v
    → All (λ y. some y ≢ a) xs
    → All (λ y. some y ≢ b) xs
    → Absent v xs
    → All (λ y. m' y ≡ m y) xs
far [] s h k l = tt
far (x ∷ xs) s h k l = (s x h.0 k.0 l.0, far xs s h.1 k.1 l.1)

pub away : (a : ℕ) (xs : List ℕ) → Absent a xs → All (λ y. some y ≢ some a) xs
away a [] h = tt
away a (x ∷ xs) h = (some-ne x a h.0, away a xs h.1)

pub off : (xs : List ℕ) → All (λ y. some y ≢ none) xs
off [] = tt
off (x ∷ xs) = (cc, off xs)

-- Behind the splice the first node alone has a new `Previous`.
pub Links-behind :
    {m m' : ℕ → Node} (a : Pointer) (p p' : Pointer) (v : ℕ) (xs : List ℕ)
    → SameBut m m' a (head_or xs none) v
    → ((x : ℕ)
        → head_or xs none ≡ some x
        → ((m' x).previous ≡ p') × ((m' x).next ≡ (m x).next) × ((m' x).owned ≡ (m x).owned))
    → All (λ y. some y ≢ a) xs
    → Absent v xs
    → Distinct xs
    → Links m p xs none
    → Links m' p' xs none
Links-behind a p p' v [] s b h l d links = tt
Links-behind {m} {m'} a p p' v (x ∷ xs) s b h l d links =
    let (q, r, o) = b x refl in
    (
      q,
      r ∙ links.1,
      o ∙ links.2,
      Links-frame m m' (some x) xs none links.3 (far xs s h.1 (away x xs d.0) l.1),
    )

head-off : (x : ℕ) (xs : List ℕ) → Absent x xs → some x ≢ head_or xs none
head-off x [] h = cc
head-off x (y ∷ xs) h = some-ne x y (λ e. h.0 (sym e))

module _ {m m' : ℕ → Node} (a v : ℕ) (vs : List ℕ)
    (same : SameBut m m' (some a) (head_or vs none) v) where
  -- A node before `a` is left alone.
  early : (x : ℕ) (us : List ℕ) → Absent x (us ++ a ∷ vs) → v ≢ x → m' x ≡ m x
  early x us d out =
      let rest = All-back _ us (a ∷ vs) d in
      same x (some-ne x a (λ e. rest.0 (sym e))) (head-off x vs rest.1) (λ e. out (sym e))

  pub Links-insert :
      (p : Pointer) (us : List ℕ)
      → Inserted m m' (some a) (head_or vs none) v
      → Distinct (us ++ a ∷ vs)
      → Absent v (us ++ a ∷ vs)
      → Links m p (us ++ a ∷ vs) none
      → Links m' p (us ++ a ∷ v ∷ vs) none
  Links-insert p [] i d out links =
      let (q, r, o) = i.before a refl in
      (
        q ∙ links.0,
        r,
        o ∙ links.2,
        (
          i.new_previous,
          i.new_next,
          i.new_owned,
          Links-behind (some a) (some a) (some v) v vs same i.behind (away a vs d.0) out.1 d.1
              links.3,
        ),
      )
  Links-insert p (x ∷ us) i d out links =
      let s = early x us d.0 (λ e. out.0 (sym e)) in
      (
        ap (λ n. n.previous) s ∙ links.0,
        ap (λ n. n.next) s
            ∙ links.1
            ∙ head_or-append us a vs none
            ∙ sym (head_or-append us a (v ∷ vs) none),
        ap (λ n. n.owned) s ∙ links.2,
        Links-insert (some x) us i d.1 out.1 links.3,
      )

  pub Links-remove :
      (p : Pointer) (us : List ℕ)
      → Joined m m' (some a) (head_or vs none) v
      → Distinct (us ++ a ∷ vs)
      → Absent v (us ++ a ∷ vs)
      → Links m p (us ++ a ∷ v ∷ vs) none
      → Links m' p (us ++ a ∷ vs) none
  Links-remove p [] j d out links =
      let (q, r, o) = j.before a refl in
      (
        q ∙ links.0,
        r,
        o ∙ links.2,
        Links-behind (some a) (some v) (some a) v vs same j.behind (away a vs d.0) out.1 d.1
            links.3.3,
      )
  Links-remove p (x ∷ us) j d out links =
      let s = early x us d.0 (λ e. out.0 (sym e)) in
      (
        ap (λ n. n.previous) s ∙ links.0,
        ap (λ n. n.next) s
            ∙ links.1
            ∙ head_or-append us a (v ∷ vs) none
            ∙ sym (head_or-append us a vs none),
        ap (λ n. n.owned) s ∙ links.2,
        Links-remove (some x) us j d.1 out.1 links.3,
      )
