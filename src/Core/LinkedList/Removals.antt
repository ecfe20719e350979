-- ===== src/Core/LinkedList/Removals.antt =====
-- core/LinkedList.h: a node that is removed leaves the list of addresses, and keeps no pointer.
use linux_stage_asio.Prelude.{
  ℕ, suc, ◌+◌, ◌-◌, ◌≡◌, refl, sym, ap, subst, ◌∙◌, ◌≢◌, inl, inr, Bool, true, false, none, some,
  List, [], ◌∷◌, ◌++◌, append_assoc, arith, leb, if◌then◌else◌, le→leb, length, length-append,
}
use linux_stage_asio.Prelude.Outcome.{done, fault}
use linux_stage_asio.Core.LinkedList.{
  Pointer, Node, LinkedList, same_pointer, set_next, set_previous, detach, previous_of, next_of,
  remove_first, remove_last, unlink, remove,
}
use linux_stage_asio.Core.LinkedList.Links.{
  head_or, last_or, Absent, Distinct, Links, Represents, All-back, head_or-append, last_or-append,
  snoc-cases, Distinct-apart, Distinct-remove,
}
use linux_stage_asio.Core.LinkedList.Splices.{SameBut, Joined, off, Links-behind, Links-remove}
use linux_stage_asio.Core.LinkedList.Additions.{KeepsValues, some_ne}

-- What a removal leaves of the list and of the node.
pub record Removed (l l' : LinkedList) (v : ℕ) (xs : List ℕ) : Type 0 where
  pub left : Represents l' xs
  pub kept : KeepsValues l l'
  pub no_previous : (l'.nodes v).previous ≡ none
  pub no_next : (l'.nodes v).next ≡ none
  pub not_owned : (l'.nodes v).owned ≡ false

abbrev without_first : LinkedList → ℕ → Pointer → LinkedList × Bool
without_first l v current =
    let left = previous_of (detach l.nodes v) current none in
    (
      if leb l.count 1
          then record { first = none; last = none; count = 0; nodes = left }
          else record l { first = current; count = l.count - 1; nodes = left },
      true,
    )

abbrev without_last : LinkedList → ℕ → Pointer → LinkedList × Bool
without_last l v current =
    let left = next_of (detach l.nodes v) current none in
    (
      if leb l.count 1
          then record { first = none; last = none; count = 0; nodes = left }
          else record l { last = current; count = l.count - 1; nodes = left },
      true,
    )

abbrev without_middle : LinkedList → ℕ → ℕ → ℕ → LinkedList
without_middle l v p n =
    let left = detach (set_previous (set_next l.nodes p (some n)) n (some p)) v in
    if leb l.count 1
    then record { first = none; last = none; count = 0; nodes = left }
    else record l { count = l.count - 1; nodes = left }

remove_first_at :
    (l : LinkedList) (v : ℕ)
    → l.first ≡ some v
    → remove_first l ≡ without_first l v (l.nodes v).next
unfolding remove_first
remove_first_at l v e =
    λ i. elim (e i) [ none ↦ (l, false) | some first ↦ without_first l first (l.nodes first).next ]

remove_last_at :
    (l : LinkedList) (v : ℕ)
    → l.last ≡ some v
    → remove_last l ≡ without_last l v (l.nodes v).previous
unfolding remove_last
remove_last_at l v e =
    λ i. elim (e i) [ none ↦ (l, false) | some last ↦ without_last l last (l.nodes last).previous ]

unlink_at :
    (l : LinkedList) (v p n : ℕ)
    → (l.nodes v).previous ≡ some p
    → (l.nodes v).next ≡ some n
    → unlink l v ≡ done (without_middle l v p n, true)
unfolding unlink
unlink_at l v p n e f = λ i. elim (e i) [
  | none ↦ fault
  | some p ↦ elim (f i) [ none ↦ fault | some n ↦ done (without_middle l v p n, true) ]
]

remove_chooses :
    (l : LinkedList) (v : ℕ) {b c : Bool}
    → same_pointer (some v) l.first ≡ b
    → same_pointer (some v) l.last ≡ c
    → remove l (some v)
      ≡ (if b then done (remove_first l) else if c then done (remove_last l) else unlink l v)
unfolding remove
remove_chooses l v e f =
    λ i. if e i then done (remove_first l) else if f i then done (remove_last l) else unlink l v

same_pointer_self : (v : ℕ) → same_pointer (some v) (some v) ≡ true
same_pointer_self v = ground arith

same_pointer_other : (v : ℕ) (p : Pointer) → p ≢ some v → same_pointer (some v) p ≡ false
same_pointer_other v none h = refl
same_pointer_other v (some q) h = ground arith

many : (l : LinkedList) (n : ℕ) → l.count ≡ suc (suc n) → leb l.count 1 ≡ false
many l n e = ground arith

first-Removed :
    (l : LinkedList) (v : ℕ) (vs : List ℕ)
    → Represents l (v ∷ vs)
    → Removed l (without_first l v (head_or vs none)).0 v vs
first-Removed l v [] r = rw (le→leb l.count 1 (omega (arith, r.counted))) (record {
  left = record { front = refl; back = refl; counted = refl; distinct = tt; chain = tt };
  kept = λ y. ground arith;
  no_previous = ground arith;
  no_next = ground arith;
  not_owned = ground arith;
})
first-Removed l v (n ∷ vs) r =
    let m = set_previous (detach l.nodes v) n none in
    let same : SameBut l.nodes m none (some n) v = λ y h k g. ground arith in
    let at_n : (y : ℕ)
        → some n ≡ some y
        → ((m y).previous ≡ none)
          × ((m y).next ≡ (l.nodes y).next)
          × ((m y).owned ≡ (l.nodes y).owned) =
      λ y e. ground (arith, r.distinct.0.0) in
    rw (many l (length vs) r.counted) (record {
      left = record {
        front = refl;
        back = r.back;
        counted = omega (arith, r.counted);
        distinct = r.distinct.1;
        chain =
            Links-behind none (some v) none v (n ∷ vs) same at_n (off (n ∷ vs)) r.distinct.0
              r.distinct.1 r.chain.3;
      };
      kept = λ y. ground arith;
      no_previous = ground (arith, r.distinct.0.0);
      no_next = ground (arith, r.distinct.0.0);
      not_owned = ground (arith, r.distinct.0.0);
    })

-- The pointers of two nodes around one that leaves.
joined : (m : ℕ → Node) (v a n : ℕ) → ℕ → Node
joined m v a n = detach (set_previous (set_next m a (some n)) n (some a)) v

joined-Joined :
    (m : ℕ → Node) (v a n : ℕ)
    → a ≢ v
    → n ≢ v
    → a ≢ n
    → Joined m (joined m v a n) (some a) (some n) v
unfolding joined
joined-Joined m v a n h k g = record { before = λ x e. ground arith; behind = λ x e. ground arith }

cut-Joined :
    (m : ℕ → Node) (v a : ℕ) → a ≢ v → Joined m (set_next (detach m v) a none) (some a) none v
cut-Joined m v a h = record { before = λ x e. ground arith; behind = λ x e. cc }

module _ (l : LinkedList) (us : List ℕ) (a v : ℕ) where
  last-Removed :
      Represents l (us ++ a ∷ v ∷ []) → Removed l (without_last l v (some a)).0 v (us ++ a ∷ [])
  last-Removed r =
      let (d, out) = Distinct-remove us a v [] r.distinct in
      let ne : a ≢ v = (All-back _ us (a ∷ []) out).0 in
      let long : l.count ≡ suc (suc (length us)) =
        omega (arith, r.counted, length-append us (a ∷ v ∷ [])) in
      rw (many l (length us) long) (record {
        left = record {
          front = r.front ∙ head_or-append us a (v ∷ []) none ∙ sym (head_or-append us a [] none);
          back = sym (last_or-append none us a []);
          counted = omega (arith, long, length-append us (a ∷ []));
          distinct = d;
          chain =
              Links-remove a v [] (λ y h k g. ground arith) none us (cut-Joined l.nodes v a ne) d
                out r.chain;
        };
        kept = λ y. ground arith;
        no_previous = ground arith;
        no_next = ground arith;
        not_owned = ground arith;
      })

  middle-Removed :
      (n : ℕ) (ws : List ℕ)
      → Represents l (us ++ a ∷ v ∷ n ∷ ws)
      → Removed l (without_middle l v a n) v (us ++ a ∷ n ∷ ws)
  unfolding joined
  middle-Removed n ws r =
      let (d, out) = Distinct-remove us a v (n ∷ ws) r.distinct in
      let ne = All-back _ us (a ∷ n ∷ ws) out in
      let apart : a ≢ n = λ e. (Distinct-apart us a (n ∷ ws) d).1.0 (sym e) in
      let long : l.count ≡ suc (suc (length us + suc (length ws))) =
        omega (arith, r.counted, length-append us (a ∷ v ∷ n ∷ ws)) in
      rw (many l _ long) (record {
        left = record {
          front =
              r.front
              ∙ head_or-append us a (v ∷ n ∷ ws) none
              ∙ sym (head_or-append us a (n ∷ ws) none);
          back =
              r.back
              ∙ last_or-append none us a (v ∷ n ∷ ws)
              ∙ sym (last_or-append none us a (n ∷ ws));
          counted = omega (arith, long, length-append us (a ∷ n ∷ ws));
          distinct = d;
          chain =
              Links-remove a v (n ∷ ws) (λ y h k g. ground arith) none us
                (joined-Joined l.nodes v a n ne.0 ne.1.0 apart) d out r.chain;
        };
        kept = λ y. ground arith;
        no_previous = ground arith;
        no_next = ground arith;
        not_owned = ground arith;
      })

Links-middle :
    (m : ℕ → Node) (p : Pointer) (us : List ℕ) (a v : ℕ) (vs : List ℕ) (q : Pointer)
    → Links m p (us ++ a ∷ v ∷ vs) q
    → ((m v).previous ≡ some a) × ((m v).next ≡ head_or vs q)
Links-middle m p [] a v vs q links = (links.3.0, links.3.1)
Links-middle m p (x ∷ us) a v vs q links = Links-middle m (some x) us a v vs q links.3

last-ne : (v : ℕ) (n : ℕ) (ws : List ℕ) → Absent v (n ∷ ws) → last_or (some n) ws ≢ some v
last-ne v n [] out = some_ne n v out.0
last-ne v n (x ∷ ws) out = last-ne v x ws out.1

module _ (l : LinkedList) (v : ℕ) where
  not_first :
      (ws : List ℕ) (a : ℕ) (vs : List ℕ)
      → Represents l (ws ++ a ∷ v ∷ vs)
      → same_pointer (some v) l.first ≡ false
  not_first [] a vs r =
      rw r.front (same_pointer_other v (some a) (some_ne a v (λ e. r.distinct.0.0 (sym e))))
  not_first (x ∷ ws) a vs r = rw r.front (
      same_pointer_other v (some x)
        (some_ne x v (λ e. (All-back _ ws (a ∷ v ∷ vs) r.distinct.0).1.0 (sym e))))

  behind-Removed :
      (ws : List ℕ) (a : ℕ) (vs : List ℕ)
      → Represents l (ws ++ a ∷ v ∷ vs)
      → (l' : LinkedList) × (remove l (some v) ≡ done (l', true)) × Removed l l' v (ws ++ a ∷ vs)
  behind-Removed ws a [] r =
      let last : l.last ≡ some v = r.back ∙ last_or-append none ws a (v ∷ []) in
      let around = Links-middle l.nodes none ws a v [] none r.chain in
      (
        (without_last l v (some a)).0,
        remove_chooses l v (not_first ws a [] r)
              (ap (same_pointer (some v)) last ∙ same_pointer_self v)
            ∙ ap done (remove_last_at l v last)
            ∙ ap (λ p. done (without_last l v p)) around.0,
        last-Removed l ws a v r,
      )
  behind-Removed ws a (n ∷ vs) r =
      let around = Links-middle l.nodes none ws a v (n ∷ vs) none r.chain in
      let d =
        Distinct-apart (ws ++ a ∷ []) v (n ∷ vs)
          (subst Distinct (sym (append_assoc ws (a ∷ []) (v ∷ n ∷ vs))) r.distinct) in
      let last : l.last ≡ last_or (some n) vs = r.back ∙ last_or-append none ws a (v ∷ n ∷ vs) in
      (
        without_middle l v a n,
        remove_chooses l v (not_first ws a (n ∷ vs) r) (
              ap (same_pointer (some v)) last
              ∙ same_pointer_other v (last_or (some n) vs) (last-ne v n vs d.1))
            ∙ unlink_at l v a n around.0 around.1,
        middle-Removed l ws a v n vs r,
      )

-- `Remove` of a node of the list takes it out: the others keep their order, no value changes, and the
-- node is left without pointers. No NULL pointer is used.
pub remove-Removed :
    (l : LinkedList) (us : List ℕ) (v : ℕ) (vs : List ℕ)
    → Represents l (us ++ v ∷ vs)
    → (l' : LinkedList) × (remove l (some v) ≡ done (l', true)) × Removed l l' v (us ++ vs)
remove-Removed l us v vs r = elim (snoc-cases us) [
  | inl e ↦
      let r' : Represents l (v ∷ vs) = subst (λ ws. Represents l (ws ++ v ∷ vs)) e r in
      let done_with = first-Removed l v vs r' in
      (
        (without_first l v (head_or vs none)).0,
        remove_chooses l v (ap (same_pointer (some v)) r'.front ∙ same_pointer_self v) refl
            ∙ ap done (remove_first_at l v r'.front)
            ∙ ap (λ p. done (without_first l v p)) r'.chain.1,
        subst (λ ws. Removed l (without_first l v (head_or vs none)).0 v (ws ++ vs)) (sym e)
            done_with,
      )
  | inr (ws, a, e) ↦
      let at = subst (λ zs. Represents l (zs ++ v ∷ vs)) e r in
      let r' = subst (Represents l) (append_assoc ws (a ∷ []) (v ∷ vs)) at in
      let (l', ran, out) = behind-Removed l v ws a vs r' in
      (
        l',
        ran,
        subst (Removed l l' v) (sym (append_assoc ws (a ∷ []) vs) ∙ ap (λ zs. zs ++ vs) (sym e))
            out,
      )
]
