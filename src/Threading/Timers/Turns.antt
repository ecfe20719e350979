-- ===== src/Threading/Timers/Turns.antt =====
-- threading/TimerScheduler.cpp: which timer `NextTimerObject` comes to.
use linux_stage_asio.Prelude.{
  ℕ, ◌<◌, ◌≡◌, refl, sym, ap, subst, ◌∙◌, inl, inr, Bool, true, false, ◌||◌, none, some, List, [],
  ◌∷◌, ◌++◌, append_assoc, arith, leb, ◌==◌, if◌then◌else◌, Option-cases, length, if_elim,
}
use linux_stage_asio.Prelude.Sets.{member, member-split, member-split_self, length_of_member}
use linux_stage_asio.Core.LinkedList.{Pointer}
use linux_stage_asio.Core.LinkedList.Links.{head_or, Links}
use linux_stage_asio.Core.LinkedList.Additions.{Links-at}
use linux_stage_asio.Threading.Timers.{Scheduler, or_first, turned, next_timer_object}
use linux_stage_asio.Threading.Timers.Invariant.{Scheduled}

abbrev pub standing_on : Scheduler → Pointer → Scheduler
standing_on s p = record s { current = p }

-- Where the iterator stands does not matter to the rest.
pub Scheduled-standing_on :
    (s : Scheduler) (xs : List ℕ) (p : Pointer)
    → Scheduled s xs
    → ((t : ℕ) → p ≡ some t → member xs t ≡ true)
    → Scheduled (standing_on s p) xs
Scheduled-standing_on s xs p h in_list = record {
  alive = h.alive;
  linked = h.linked;
  watched = h.watched;
  enabled = h.enabled;
  sound = h.sound;
  valued = h.valued;
  standing = in_list;
  period = h.period;
}

count_test : (count n : ℕ) → count ≡ n → 0 < n → leb count 0 ≡ false
count_test count n e h = ground arith

size_test : (n : ℕ) → 0 < n → (n == 0) ≡ false
size_test n h = ground arith

module _ (s : Scheduler) (xs : List ℕ) (h : Scheduled s xs) where
  pub turned_first : s.current ≡ none → turned s ≡ head_or xs none
  turned_first e = λ i.
      or_first (elim (e i) [ none ↦ none | some node ↦ (s.linked_list.nodes node).next ])
        (h.linked.front i)

  pub turned_behind :
      (us : List ℕ) (c : ℕ) (vs : List ℕ)
      → xs ≡ us ++ c ∷ vs
      → s.current ≡ some c
      → turned s ≡ or_first (head_or vs none) (head_or xs none)
  turned_behind us c vs split e =
      (λ i.
        or_first (elim (e i) [ none ↦ none | some node ↦ (s.linked_list.nodes node).next ])
          (h.linked.front i))
      ∙ ap (λ p. or_first p (head_or xs none))
          (Links-at s.linked_list.nodes none us c vs none
            (subst (λ ys. Links s.linked_list.nodes none ys none) split h.linked.chain)).1

  pub next_timer_object_at :
      (t : ℕ)
      → turned s ≡ some t
      → member xs t ≡ true
      → next_timer_object s ≡ (standing_on s (some t), some t)
  unfolding next_timer_object
  next_timer_object_at t e m =
      (λ i.
        if h.alive i
          || count_test s.linked_list.count (length xs) h.linked.counted (length_of_member xs t m) i
          || size_test (length s.table) (length_of_member s.table t (h.watched t ∙ m)) i
        then (standing_on s none, none)
        else elim (e i) [
          | none ↦ (standing_on s none, none)
          | some node ↦ (standing_on s (some node), (s.linked_list.nodes node).value)
        ])
      ∙ ap (λ (v : Pointer). (standing_on s (some t), v)) (h.valued t m)

head-member : (x : ℕ) (xs : List ℕ) → member (x ∷ xs) x ≡ true
head-member x xs = ground arith

-- With a timer in the list the turn is one's in the list.
pub turned-member :
    (s : Scheduler) (x : ℕ) (xs : List ℕ)
    → Scheduled s (x ∷ xs)
    → (t : ℕ) × (turned s ≡ some t) × (member (x ∷ xs) t ≡ true)
turned-member s x xs h = elim (Option-cases s.current) [
  | inl e ↦ (x, turned_first s (x ∷ xs) h e, head-member x xs)
  | inr (c, e) ↦
      let (us, vs, split) = member-split (x ∷ xs) c (h.standing c e) in
      behind us c vs split (turned_behind s (x ∷ xs) h us c vs split e)
]
  where
    behind :
        (us : List ℕ) (c : ℕ) (vs : List ℕ)
        → x ∷ xs ≡ us ++ c ∷ vs
        → turned s ≡ or_first (head_or vs none) (some x)
        → (t : ℕ) × (turned s ≡ some t) × (member (x ∷ xs) t ≡ true)
    behind us c [] split e = (x, e, head-member x xs)
    behind us c (n ∷ vs) split e = (
      n,
      e,
      subst (λ ys. member ys n ≡ true) (append_assoc us (c ∷ []) (n ∷ vs) ∙ sym split)
          (member-split_self (us ++ c ∷ []) n vs),
    )

empty_guard :
    (disposed : Bool) (count size : ℕ)
    → count ≡ 0
    → (disposed || leb count 0 || size == 0) ≡ false
    → ⊥
empty_guard disposed count size h e = ground arith

pub next_timer_object_empty :
    (s : Scheduler) → Scheduled s [] → next_timer_object s ≡ (standing_on s none, none)
unfolding next_timer_object
next_timer_object_empty s h =
    if_elim (λ (r : Scheduler × Pointer). r ≡ (standing_on s none, none))
      (s.disposed || leb s.linked_list.count 0 || length s.table == 0) _ _ (λ e. refl)
      (λ e. absurd (empty_guard s.disposed s.linked_list.count (length s.table) h.linked.counted e))
