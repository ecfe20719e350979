-- ===== src/Threading/Timers/Changes.antt =====
-- threading/TimerScheduler.cpp and Timer.cpp: starting, stopping and the rest keep the invariant and
-- use no NULL pointer.
use linux_stage_asio.Prelude.{
  ℕ, ◌<◌, ◌≡◌, refl, sym, ap, ap₂, subst, ◌∙◌, ◌≢◌, inl, inr, Bool, true, false, ◌||◌, none, some,
  List, [], ◌∷◌, ◌++◌, arith, ltb, leb, ◌==◌, if◌then◌else◌, ==_iff, Bool-cases, length, All-append,
}
use linux_stage_asio.Prelude.Sets.{
  member, erase_key, member-erase_key, member-append, All_of_not_member, not_member_of_All,
  member-snoc_self, member-snoc_other, member-snoc_old, member-insert, length_of_member,
  member-split_self, member-split_other,
}
use linux_stage_asio.Core.LinkedList.{Pointer, LinkedList, same_pointer}
use linux_stage_asio.Core.LinkedList.Links.{head_or, Absent, Distinct-apart}
use linux_stage_asio.Core.LinkedList.Additions.{Links-at, add_last-Represents}
use linux_stage_asio.Core.LinkedList.Removals.{Removed}
use linux_stage_asio.Threading.Timers.{
  Scheduler, blank, idle, started, or_first, scheduler_start, moved_on, stopped,
}
use linux_stage_asio.Threading.Timers.Invariant.{
  set_timer-elim, IsSound, Scheduled, Represents-blank, blank_value,
}

none_or : (b : Bool) (p : Pointer) (u : ℕ) → (if b then none else p) ≡ some u → p ≡ some u
none_or true p u e = cc
none_or false p u e = e

ne_of_test : (t u : ℕ) → (t == u) ≡ false → t ≢ u
ne_of_test t u h = ground arith

test_of_pos : (n : ℕ) → 0 < n → (n == 0) ≡ false
test_of_pos n h = ground arith

started_period :
    (period count size interval : ℕ)
    → 0 < interval
    → 0 < (
        if period == 0 || leb count 0 || size == 0
        then interval
        else if ltb interval period
        then interval
        else period)
started_period period count size interval h = ground arith

blank_own :
    (s : Scheduler) (xs : List ℕ) (t u : ℕ)
    → Scheduled s xs
    → member (xs ++ t ∷ []) u ≡ true
    → ((blank s.linked_list t (some t)).nodes u).value ≡ some u
blank_own s xs t u h m = elim (Bool-cases (t == u)) [
  | inl same ↦ rw same (ap some ((==_iff t u).0 same))
  | inr other ↦ rw other (h.valued u (sym (member-snoc_other xs t u (ne_of_test t u other)) ∙ m))
]

-- Starting a timer that may run and does not yet puts it behind the others.
module _ (s : Scheduler) (xs : List ℕ) (t now : ℕ) (h : Scheduled s xs) (out : member xs t ≡ false)
    (sound : IsSound (s.timers t)) where
  pub scheduler_start_runs : scheduler_start s (some t) now ≡ (started s t now, true)
  unfolding scheduler_start
  scheduler_start_runs = λ i.
      if h.alive i || sound.not_disposed i
      then (s, false)
      else if (h.watched t ∙ out) i
      then (s, true)
      else if test_of_pos (s.timers t).interval sound.period i
      then (s, false)
      else (started s t now, true)

  pub started-Scheduled : Scheduled (started s t now) (xs ++ t ∷ [])
  started-Scheduled =
      let absent = All_of_not_member xs t out in
      let before = Represents-blank s.linked_list xs t (some t) h.linked absent in
      let (linked, kept) =
        add_last-Represents (blank s.linked_list t (some t)) t xs before absent in
      record {
        alive = h.alive;
        linked = linked;
        watched = λ u. member-insert s.table xs t u (h.watched u);
        enabled =
            set_timer-elim (λ u w. w.enabled ≡ member (xs ++ t ∷ []) u) s.timers t _
              (sym (member-snoc_self xs t))
              (λ u ne. h.enabled u ∙ sym (member-snoc_other xs t u ne));
        sound =
            set_timer-elim (λ u w. member (xs ++ t ∷ []) u ≡ true → IsSound w) s.timers t _
              (λ m. record {
                attached = sound.attached;
                not_disposed = sound.not_disposed;
                period = sound.period;
              })
              (λ u ne m. h.sound u (sym (member-snoc_other xs t u ne) ∙ m));
        valued = λ u m. kept u ∙ blank_own s xs t u h m;
        standing = λ u e. member-snoc_old xs t u (h.standing u (none_or (idle s) s.current u e));
        period = λ u m.
            started_period s.min_period s.linked_list.count (length s.table) (s.timers t).interval
              sound.period;
      }

-- Behind the node of `t`, and from the last one the first.
abbrev after : List ℕ → ℕ → List ℕ → Pointer
after us t vs = or_first (head_or vs none) (head_or (us ++ t ∷ vs) none)

after-member :
    (us : List ℕ) (t : ℕ) (vs : List ℕ) (u : ℕ)
    → 0 < length (us ++ vs)
    → after us t vs ≡ some u
    → member (us ++ vs) u ≡ true
after-member [] t [] u some_left e = absurd (omega arith)
after-member (x ∷ us) t [] u some_left e = ground arith
after-member us t (n ∷ vs) u some_left e =
    subst (λ w. member (us ++ n ∷ vs) w ≡ true) (cc) (member-split_self us n vs)

length_pos_of_count :
    (left : LinkedList) (xs : List ℕ) (table : List ℕ)
    → left.count ≡ length xs
    → (leb left.count 0 || length table == 0) ≡ false
    → 0 < length xs
length_pos_of_count left xs table e h = ground arith

left_period :
    (count size period : ℕ)
    → 0 < count
    → 0 < size
    → 0 < period
    → 0 < (if leb count 0 || size == 0 then 0 else period)
left_period count size period h k l = ground arith

none_or_test :
    (b : Bool) (p : Pointer) (u : ℕ) → (if b then none else p) ≡ some u → (b ≡ false) × (p ≡ some u)
none_or_test true p u e = cc
none_or_test false p u e = (refl, e)

-- Stopping a timer that runs.
module _ (s : Scheduler) (us : List ℕ) (t : ℕ) (vs : List ℕ) (h : Scheduled s (us ++ t ∷ vs)) where
  next_is : (s.linked_list.nodes t).next ≡ head_or vs none
  next_is = (Links-at s.linked_list.nodes none us t vs none h.linked.chain).1

  away_from : Absent t (us ++ vs)
  away_from =
      let apart = Distinct-apart us t vs h.linked.distinct in All-append _ us vs apart.0 apart.1

  pub not_left : member (us ++ vs) t ≡ false
  not_left = not_member_of_All (us ++ vs) t away_from

  left_over : (u : ℕ) → t ≢ u → member (us ++ t ∷ vs) u ≡ member (us ++ vs) u
  left_over = member-split_other us t vs

  was_there : (u : ℕ) → member (us ++ vs) u ≡ true → member (us ++ t ∷ vs) u ≡ true
  was_there u m = ground (arith, member-append us (t ∷ vs) u, member-append us vs u)

  onward : Pointer
  onward = or_first (s.linked_list.nodes t).next s.linked_list.first

  moved_on-member :
      (u : ℕ) → 0 < length (us ++ vs) → moved_on s t ≡ some u → member (us ++ vs) u ≡ true
  unfolding onward
  moved_on-member u some_left e = elim (Bool-cases (same_pointer (some t) s.current)) [
    | inl same ↦ after-member us t vs u some_left (
        sym (ap₂ or_first next_is h.linked.front)
        ∙ ap (λ b. if b then onward else s.current) (sym same)
        ∙ e)
    | inr other ↦
        let here : s.current ≡ some u = ap (λ b. if b then onward else s.current) (sym other) ∙ e in
        let ne : t ≢ u = ne_of_test t u (ap (same_pointer (some t)) (sym here) ∙ other) in
        sym (left_over u ne) ∙ h.standing u here
  ]

  watched : (u : ℕ) → member (erase_key s.table t) u ≡ member (us ++ vs) u
  watched u = member-erase_key s.table t u ∙ elim (Bool-cases (t == u)) [
    | inl same ↦ rw same (sym (ap (member (us ++ vs)) (sym ((==_iff t u).0 same)) ∙ not_left))
    | inr other ↦ rw other (h.watched u ∙ left_over u (ne_of_test t u other))
  ]

  pub stopped-Scheduled :
      (left : LinkedList)
      → Removed s.linked_list left t (us ++ vs)
      → Scheduled (stopped s t left) (us ++ vs)
  stopped-Scheduled left r = record {
    alive = h.alive;
    linked = Represents-blank left (us ++ vs) t none r.left away_from;
    watched = λ u. watched u;
    enabled =
        set_timer-elim (λ u w. w.enabled ≡ member (us ++ vs) u) s.timers t _ (sym not_left)
          (λ u ne. h.enabled u ∙ left_over u ne);
    sound =
        set_timer-elim (λ u w. member (us ++ vs) u ≡ true → IsSound w) s.timers t _
          (λ m. cc (not_left)) (λ u ne m. h.sound u (left_over u ne ∙ m));
    valued = λ u m.
        blank_value left (us ++ vs) t u none not_left m ∙ r.kept u ∙ h.valued u (was_there u m);
    standing = λ u e.
        let (some_left, moved) = none_or_test _ (moved_on s t) u e in
        moved_on-member u
          (length_pos_of_count left (us ++ vs) (erase_key s.table t) r.left.counted some_left)
          moved;
    period = λ u m.
        left_period left.count (length (erase_key s.table t)) s.min_period
          (subst (λ n. 0 < n) (sym r.left.counted) (length_of_member (us ++ vs) u m))
          (length_of_member (erase_key s.table t) u (watched u ∙ m)) (h.period u (was_there u m));
  }
