-- ===== src/Threading/Timers/Sweep.antt =====
-- threading/TimerScheduler.cpp: as many turns as there are timers visit each of them once, when the
-- handlers leave the timers alone.
use linux_stage_asio.Prelude.{
  ℕ, ◌≡◌, refl, sym, ap, subst, ◌∙◌, ◌≢◌, inl, inr, Bool, true, false, ◌||◌, none, some, List, [],
  ◌∷◌, ◌++◌, arith, ◌==◌, if◌then◌else◌, ==_iff, Bool-cases, length, length-append, All,
}
use linux_stage_asio.Prelude.Outcome.{done}
use linux_stage_asio.Prelude.Sets.{member, not_member_of_All, member-append}
use linux_stage_asio.Core.LinkedList.Links.{last_or, Distinct, All-map}
use linux_stage_asio.Threading.Timers.{Timer, Scheduler, Ticked, silent, process_tick_always}
use linux_stage_asio.Threading.Timers.Invariant.{Scheduled}
use linux_stage_asio.Threading.Timers.Turns.{
  standing_on, Scheduled-standing_on, next_timer_object_at,
}
use linux_stage_asio.Threading.Timers.Rotation.{
  turned-next_in, Follows, Follows-round, Distinct-rotate,
}
use linux_stage_asio.Threading.Timers.Visits.{
  seen, due, nothing, visited, visit-visited, visited-Scheduled, visited-timers, visited-current,
  visited-told, joined, process_tick_always_step, due-frame,
}

-- A timer behind the visit of `t` and of others.
marked_twice :
    (ticks : ℕ) (timers : ℕ → Timer) (t u : ℕ) (v w : Timer) (b : Bool)
    → (t ≡ u → b ≡ false)
    → w ≡ (if b then seen ticks v else v)
    → v ≡ (if t == u then seen ticks (timers u) else timers u)
    → w ≡ (if t == u || b then seen ticks (timers u) else timers u)
marked_twice ticks timers t u v w b apart e f = elim (Bool-cases (t == u)) [
  | inl same ↦ rw same (
      e
      ∙ ap (λ c. if c then seen ticks v else v) (apart ((==_iff t u).0 same))
      ∙ f
      ∙ ap (λ c. if c then seen ticks (timers u) else timers u) same)
  | inr other ↦ rw other (
      e
      ∙ ap (λ x. if b then seen ticks x else x)
          (f ∙ ap (λ c. if c then seen ticks (timers u) else timers u) other))
]

module _ (ticks : ℕ) where
  -- What some turns leave: the timers that were visited are marked where they were due.
  record Swept (s : Scheduler) (xs ts : List ℕ) (r : Ticked) : Type 0 where
    called : r.told ≡ due ticks s.timers ts
    scheduled : Scheduled r.scheduler xs
    stands : r.scheduler.current ≡ last_or s.current ts
    marked :
        (u : ℕ)
        → r.scheduler.timers u ≡ (if member ts u then seen ticks (s.timers u) else s.timers u)

  process_tick_always-zero :
      (s : Scheduler) → process_tick_always nothing ticks s 0 ≡ done (silent s)
  unfolding process_tick_always
  process_tick_always-zero s = refl

  some_of : (t u : ℕ) → some t ≡ some u → t ≡ u
  some_of t u e = cc

  apart : (t y : ℕ) (v w : Timer) → y ≢ t → (if t == y then w else v) ≡ v
  apart t y v w ne = ground arith

  sweep :
      (s : Scheduler) (xs ts : List ℕ)
      → Scheduled s xs
      → Follows xs s.current ts
      → All (λ t. member xs t ≡ true) ts
      → Distinct ts
      → (r : Ticked) × (process_tick_always nothing ticks s (length ts) ≡ done r) × Swept s xs ts r
  sweep s xs [] h f m d = (
    silent s,
    process_tick_always-zero s,
    record { called = refl; scheduled = h; stands = refl; marked = λ u. refl },
  )
  sweep s xs (t ∷ ts) h f m d =
      let s' = standing_on s (some t) in
      let h' =
        Scheduled-standing_on s xs (some t) h
          (λ u e. subst (λ w. member xs w ≡ true) (some_of t u e) m.0) in
      let v = visited ticks s' t in
      let f' = subst (λ p. Follows xs p ts) (sym (visited-current ticks s' t)) f.1 in
      let (later, ran, swept) =
        sweep v.scheduler xs ts (visited-Scheduled ticks s' xs t h') f' m.1 d.1 in
      let spared : All (λ y. v.scheduler.timers y ≡ s.timers y) ts =
        All-map ts (λ y ne. visited-timers ticks s' t y ∙ apart t y (s.timers y) _ ne) d.0 in
      (
        joined ticks v later,
        process_tick_always_step ticks s s' t (length ts) v later h.alive
            (next_timer_object_at s xs h t (turned-next_in s xs h ∙ f.0) m.0)
            (visit-visited ticks s' xs t h' m.0) ran,
        record {
          called =
              ap (λ ys. v.told ++ ys) (swept.called ∙ due-frame ticks _ s.timers ts spared)
              ∙ visited-told ticks s' t ts;
          scheduled = swept.scheduled;
          stands = swept.stands ∙ ap (λ p. last_or p ts) (visited-current ticks s' t);
          marked = λ u.
              marked_twice ticks s.timers t u (v.scheduler.timers u) _ (member ts u)
                (λ e. subst (λ w. member ts w ≡ false) e (not_member_of_All ts t d.0))
                (swept.marked u) (visited-timers ticks s' t u);
        },
      )

members :
    (xs : List ℕ) (ts : List ℕ)
    → ((t : ℕ) → member ts t ≡ true → member xs t ≡ true)
    → All (λ t. member xs t ≡ true) ts
members xs [] h = tt
members xs (t ∷ ts) h = (h t (ground arith), members xs ts (λ u m. h u (ground arith)))

member-rotate : (us vs : List ℕ) (u : ℕ) → member (vs ++ us) u ≡ member (us ++ vs) u
member-rotate us vs u = ground (arith, member-append us vs u, member-append vs us u)

length-rotate : (us vs : List ℕ) → length (vs ++ us) ≡ length (us ++ vs)
length-rotate us vs = omega (arith, length-append us vs, length-append vs us)

-- Where the iterator stands on the last of `us`, as many turns as there are timers, with handlers that
-- leave the timers alone, call the handlers of those that are due, each once and in rotation, with the
-- time since their last mark; they mark those and the ones without a mark with the time of the run,
-- and leave the other timers and the order as they are.
pub process_tick_always-round :
    (ticks : ℕ) (s : Scheduler) (us vs : List ℕ)
    → Scheduled s (us ++ vs)
    → s.current ≡ last_or none us
    → (r : Ticked) × (process_tick_always nothing ticks s (length (us ++ vs)) ≡ done r)
      × (r.told ≡ due ticks s.timers (vs ++ us))
      × Scheduled r.scheduler (us ++ vs)
      × ((u : ℕ)
          → r.scheduler.timers u
            ≡ (if member (us ++ vs) u then seen ticks (s.timers u) else s.timers u))
process_tick_always-round ticks s us vs h stands =
    let xs = us ++ vs in
    let d = h.linked.distinct in
    let (r, ran, swept) =
      sweep ticks s xs (vs ++ us) h
        (subst (λ p. Follows xs p (vs ++ us)) (sym stands) (Follows-round us vs d))
        (members xs (vs ++ us) (λ t m. sym (member-rotate us vs t) ∙ m))
        (Distinct-rotate us vs d) in
    (
      r,
      subst (λ n. process_tick_always nothing ticks s n ≡ done r) (length-rotate us vs) ran,
      swept.called,
      swept.scheduled,
      (λ u.
          swept.marked u
          ∙ ap (λ b. if b then seen ticks (s.timers u) else s.timers u) (member-rotate us vs u)),
    )
