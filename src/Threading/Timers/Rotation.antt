-- ===== src/Threading/Timers/Rotation.antt =====
-- threading/TimerScheduler.cpp: the order in which `NextTimerObject` goes through a list of timers.
use linux_stage_asio.Prelude.{
  ℕ, ◌≡◌, refl, sym, ap, subst, ◌∙◌, inl, inr, none, some, List, [], ◌∷◌, ◌++◌, append-nil,
  append_assoc, arith, ◌==◌, if◌then◌else◌, Option-cases, All-append,
}
use linux_stage_asio.Prelude.Sets.{member-split}
use linux_stage_asio.Core.LinkedList.{Pointer}
use linux_stage_asio.Core.LinkedList.Links.{
  head_or, last_or, Absent, Distinct, All-front, All-back, Distinct-apart, last_or-append,
  snoc-cases,
}
use linux_stage_asio.Threading.Timers.{Scheduler, or_first, turned}
use linux_stage_asio.Threading.Timers.Invariant.{Scheduled}
use linux_stage_asio.Threading.Timers.Turns.{turned_first, turned_behind}

abbrev pub successor : List ℕ → ℕ → Pointer
successor [] c = none
successor (x ∷ xs) c = if x == c then head_or xs none else successor xs c

-- The one behind a position, and from the last one the first.
abbrev pub next_in : List ℕ → Pointer → Pointer
next_in xs none = head_or xs none
next_in xs (some c) = or_first (successor xs c) (head_or xs none)

successor-split :
    (us : List ℕ) (c : ℕ) (vs : List ℕ) → Absent c us → successor (us ++ c ∷ vs) c ≡ head_or vs none
successor-split [] c vs out = ground arith
successor-split (x ∷ us) c vs out = ground (arith, successor-split us c vs out.1)

pub turned-next_in :
    (s : Scheduler) (xs : List ℕ) → Scheduled s xs → turned s ≡ next_in xs s.current
turned-next_in s xs h = elim (Option-cases s.current) [
  | inl e ↦ turned_first s xs h e ∙ ap (next_in xs) (sym e)
  | inr (c, e) ↦
      let (us, vs, split) = member-split xs c (h.standing c e) in
      let apart = Distinct-apart us c vs (subst Distinct split h.linked.distinct) in
      turned_behind s xs h us c vs split e
      ∙ ap (λ p. or_first p (head_or xs none))
          (sym (successor-split us c vs apart.0) ∙ ap (λ ys. successor ys c) (sym split))
      ∙ ap (next_in xs) (sym e)
]

-- From a position on, the turns are those of `ts`.
abbrev pub Follows : List ℕ → Pointer → List ℕ → Type 0
Follows xs p [] = Unit
Follows xs p (t ∷ ts) = (next_in xs p ≡ some t) × Follows xs (some t) ts

Follows-append :
    (xs : List ℕ) (p : Pointer) (ts us : List ℕ)
    → Follows xs p ts
    → Follows xs (last_or p ts) us
    → Follows xs p (ts ++ us)
Follows-append xs p [] us f g = g
Follows-append xs p (t ∷ ts) us f g = (f.0, Follows-append xs (some t) ts us f.1 g)

Follows-from :
    (xs : List ℕ) (p q : Pointer) (ts : List ℕ)
    → next_in xs p ≡ next_in xs q
    → Follows xs q ts
    → Follows xs p ts
Follows-from xs p q [] e f = tt
Follows-from xs p q (t ∷ ts) e f = (e ∙ f.0, f.1)

snoc_front : (us : List ℕ) (t : ℕ) → last_or none (us ++ t ∷ []) ≡ some t
snoc_front us t = last_or-append none us t []

-- Behind the last of `us` comes the next.
next_of_front :
    (us : List ℕ) (t : ℕ) (ws : List ℕ)
    → Distinct (us ++ t ∷ ws)
    → next_in (us ++ t ∷ ws) (last_or none us) ≡ some t
next_of_front us t ws d = elim (snoc-cases us) [
  | inl e ↦ subst (λ zs. next_in (zs ++ t ∷ ws) (last_or none zs) ≡ some t) (sym e) refl
  | inr (front, c, e) ↦
      let d' =
        subst Distinct (ap (λ zs. zs ++ t ∷ ws) e ∙ append_assoc front (c ∷ []) (t ∷ ws)) d in
      subst (λ zs. next_in (zs ++ t ∷ ws) (last_or none zs) ≡ some t) (sym e)
        (subst (λ zs. next_in zs (last_or none (front ++ c ∷ [])) ≡ some t)
          (sym (append_assoc front (c ∷ []) (t ∷ ws)))
          (rw (
            snoc_front front c,
            successor-split front c (t ∷ ws) (Distinct-apart front c (t ∷ ws) d').0,
          )))
]

Follows-segment :
    (xs us ts ws : List ℕ) → xs ≡ us ++ (ts ++ ws) → Distinct xs → Follows xs (last_or none us) ts
Follows-segment xs us [] ws split d = tt
Follows-segment xs us (t ∷ ts) ws split d = (
  subst (λ zs. next_in zs (last_or none us) ≡ some t) (sym split)
      (next_of_front us t (ts ++ ws) (subst Distinct split d)),
  subst (λ p. Follows xs p ts) (snoc_front us t)
      (Follows-segment xs (us ++ t ∷ []) ts ws (split ∙ sym (append_assoc us (t ∷ []) (ts ++ ws)))
        d),
)

-- At the end it begins again.
wraps : (xs : List ℕ) → Distinct xs → next_in xs (last_or none xs) ≡ next_in xs none
wraps xs d = elim (snoc-cases xs) [
  | inl e ↦ rw e
  | inr (front, c, e) ↦
      subst (λ zs. next_in zs (last_or none zs) ≡ head_or zs none) (sym e)
        (rw (
          snoc_front front c,
          successor-split front c [] (Distinct-apart front c [] (subst Distinct e d)).0,
        ))
]

last_or-last_or : (p : Pointer) (us vs : List ℕ) → last_or (last_or p us) vs ≡ last_or p (us ++ vs)
last_or-last_or p [] vs = refl
last_or-last_or p (x ∷ us) vs = last_or-last_or (some x) us vs

-- Once round from behind `us`: first what is behind, then `us`.
pub Follows-round :
    (us vs : List ℕ) → Distinct (us ++ vs) → Follows (us ++ vs) (last_or none us) (vs ++ us)
Follows-round us vs d =
    let xs = us ++ vs in
    Follows-append xs (last_or none us) vs us
      (Follows-segment xs us vs [] (ap (λ zs. us ++ zs) (sym (append-nil vs))) d)
      (Follows-from xs _ none us (ap (next_in xs) (last_or-last_or none us vs) ∙ wraps xs d)
        (Follows-segment xs [] us vs refl d))

pub Distinct-insert :
    (us : List ℕ) (v : ℕ) (vs : List ℕ)
    → Distinct (us ++ vs)
    → Absent v (us ++ vs)
    → Distinct (us ++ v ∷ vs)
Distinct-insert [] v vs d out = (out, d)
Distinct-insert (x ∷ us) v vs d out = (
  All-append _ us (v ∷ vs) (All-front _ us vs d.0) (λ e. out.0 (sym e), All-back _ us vs d.0),
  Distinct-insert us v vs d.1 out.1,
)

pub Distinct-rotate : (us vs : List ℕ) → Distinct (us ++ vs) → Distinct (vs ++ us)
Distinct-rotate [] vs d = subst Distinct (sym (append-nil vs)) d
Distinct-rotate (x ∷ us) vs d =
    Distinct-insert vs x us (Distinct-rotate us vs d.1)
      (All-append _ vs us (All-back _ us vs d.0) (All-front _ us vs d.0))
