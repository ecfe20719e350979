-- ===== src/Threading/Timers/Visits.antt =====
-- threading/TimerScheduler.cpp: one turn of `ProcessTickAlways` when the handlers leave the timers alone.
use linux_stage_asio.Prelude.{
  ℕ, suc, ◌+◌, ◌-◌, ◌<◌, ◌≡◌, refl, sym, ap, ap₂, ◌∙◌, inl, inr, Bool, true, false, ◌||◌, not, none,
  some, List, [], ◌∷◌, ◌++◌, arith, ltb, leb, ◌==◌, if◌then◌else◌, ==_iff, Bool-cases, All, if_elim,
}
use linux_stage_asio.Prelude.Outcome.{Outcome, done, ◌>>=◌}
use linux_stage_asio.Prelude.Sets.{member}
use linux_stage_asio.Threading.Timers.{
  Timer, Scheduler, with_timer, scheduler_stop, Call, calls, next_timer_object, Ticked, silent,
  visit, process_tick_always,
}
use linux_stage_asio.Threading.Timers.Invariant.{Scheduled, Scheduled-with_timer}

-- The time of a timer has come: its interval is over, or the clock has gone back.
abbrev pub is_due : ℕ → Timer → Bool
is_due ticks timer = ltb ticks timer.last || leb timer.interval (ticks - timer.last)

-- The time that its handler is told.
abbrev pub elapsed : ℕ → Timer → ℕ
elapsed ticks timer = if ltb ticks timer.last then 0 else ticks - timer.last

-- What a turn makes of a timer: a time of 0 means that it has none yet.
abbrev pub seen : ℕ → Timer → Timer
seen ticks timer =
    if timer.last == 0
    then record timer { last = ticks }
    else if is_due ticks timer
    then record timer { last = ticks }
    else timer

-- The handlers that are called in turn, with what they are told.
abbrev pub due : ℕ → (ℕ → Timer) → List ℕ → List (ℕ × ℕ)
due ticks timers [] = []
due ticks timers (t ∷ ts) =
    if (timers t).last == 0
    then due ticks timers ts
    else if is_due ticks (timers t)
    then (t, elapsed ticks (timers t)) ∷ due ticks timers ts
    else due ticks timers ts

abbrev pub nothing : ℕ → ℕ → List Call
nothing _ _ = []

-- What a turn comes to.
abbrev pub visited : ℕ → Scheduler → ℕ → Ticked
visited ticks s t =
    let timer = s.timers t in
    let marked = with_timer s t (record timer { last = ticks }) in
    if timer.last == 0
    then silent marked
    else if is_due ticks timer
    then record { scheduler = marked; events = 1; told = (t, elapsed ticks timer) ∷ [] }
    else silent s

may_run :
    (interval : ℕ) (disposed enabled : Bool)
    → 0 < interval
    → disposed ≡ false
    → enabled ≡ true
    → (interval == 0 || disposed || not enabled) ≡ false
may_run interval disposed enabled h k l = ground arith

done-if :
    {A : Type 0} (b : Bool) (x y : A) → (if b then done x else done y) ≡ done (if b then x else y)
done-if true x y = refl
done-if false x y = refl

module _ (ticks : ℕ) where
  pub visit-visited :
      (s : Scheduler) (xs : List ℕ) (t : ℕ)
      → Scheduled s xs
      → member xs t ≡ true
      → visit nothing ticks s t ≡ done (visited ticks s t)
  unfolding visit calls
  visit-visited s xs t h m =
      let timer = s.timers t in
      let marked = with_timer s t (record timer { last = ticks }) in
      let fired : Ticked = record {
        scheduler = marked;
        events = 1;
        told = (t, elapsed ticks timer) ∷ [];
      } in
      let runs =
        may_run timer.interval timer.disposed timer.enabled (h.sound t m).period
          (h.sound t m).not_disposed (h.enabled t ∙ m) in
      (λ i.
        if timer.last == 0
        then done (silent marked)
        else if runs i
        then (scheduler_stop s (some t) >>= λ (r : Scheduler × Bool). done (silent r.0))
        else if is_due ticks timer
        then done fired
        else done (silent s))
      ∙ ap (λ o. if timer.last == 0 then done (silent marked) else o)
          (done-if (is_due ticks timer) fired (silent s))
      ∙ done-if (timer.last == 0) (silent marked) _

  pub visited-Scheduled :
      (s : Scheduler) (xs : List ℕ) (t : ℕ)
      → Scheduled s xs
      → Scheduled (visited ticks s t).scheduler xs
  visited-Scheduled s xs t h =
      let P : Ticked → Type 0 = λ r. Scheduled r.scheduler xs in
      let timer = s.timers t in
      let marked : Scheduled (with_timer s t (record timer { last = ticks })) xs =
        Scheduled-with_timer s xs t _ h (h.enabled t) (λ m. record {
          attached = (h.sound t m).attached;
          not_disposed = (h.sound t m).not_disposed;
          period = (h.sound t m).period;
        }) in
      if_elim P (timer.last == 0) _ _ (λ e. marked)
        (λ e. if_elim P (is_due ticks timer) _ (silent s) (λ f. marked) (λ f. h))

  -- The timer is marked and the others are left alone; the iterator stays.
  pub visited-timers :
      (s : Scheduler) (t u : ℕ)
      → (visited ticks s t).scheduler.timers u
        ≡ (if t == u then seen ticks (s.timers u) else s.timers u)
  visited-timers s t u = elim (Bool-cases (t == u)) [
    | inl same ↦
        let e : t ≡ u = (==_iff t u).0 same in
        rw same
          (marks (timer.last == 0) (is_due ticks timer) same ∙ ap (λ w. seen ticks (s.timers w)) e)
    | inr other ↦ rw other (spares (timer.last == 0) (is_due ticks timer) other)
  ]
    where
      timer : Timer
      timer = s.timers t

      marked : Scheduler
      marked = with_timer s t (record timer { last = ticks })

      result : Bool → Bool → Ticked
      result a b =
          if a
          then silent marked
          else if b
          then record { scheduler = marked; events = 1; told = (t, elapsed ticks timer) ∷ [] }
          else silent s

      marks :
          (a b : Bool)
          → (t == u) ≡ true
          → (result a b).scheduler.timers u ≡ (
              if a
              then record timer { last = ticks }
              else if b
              then record timer { last = ticks }
              else timer)
      marks true b e = rw e
      marks false true e = rw e
      marks false false e = ap s.timers (sym ((==_iff t u).0 e))

      spares : (a b : Bool) → (t == u) ≡ false → (result a b).scheduler.timers u ≡ s.timers u
      spares true b e = rw e
      spares false true e = rw e
      spares false false e = refl

  pub visited-current : (s : Scheduler) (t : ℕ) → (visited ticks s t).scheduler.current ≡ s.current
  visited-current s t =
      let P : Ticked → Type 0 = λ r. r.scheduler.current ≡ s.current in
      if_elim P ((s.timers t).last == 0) _ _ (λ e. refl)
        (λ e. if_elim P (is_due ticks (s.timers t)) _ (silent s) (λ f. refl) (λ f. refl))

  pub visited-told :
      (s : Scheduler) (t : ℕ) (ts : List ℕ)
      → (visited ticks s t).told ++ due ticks s.timers ts ≡ due ticks s.timers (t ∷ ts)
  visited-told s t ts = go ((s.timers t).last == 0) (is_due ticks (s.timers t))
    where
      now : ℕ × ℕ
      now = (t, elapsed ticks (s.timers t))

      marked : Scheduler
      marked = with_timer s t (record (s.timers t) { last = ticks })

      go :
          (a b : Bool)
          → (if a
                then silent marked
                else if b
                then record { scheduler = marked; events = 1; told = now ∷ [] }
                else silent s).told
              ++ due ticks s.timers ts
            ≡ (if a
                then due ticks s.timers ts
                else if b
                then now ∷ due ticks s.timers ts
                else due ticks s.timers ts)
      go true b = refl
      go false true = refl
      go false false = refl

  abbrev pub joined : Ticked → Ticked → Ticked
  joined first later = record {
    scheduler = later.scheduler;
    events = first.events + later.events;
    told = first.told ++ later.told;
  }

  pub process_tick_always_step :
      (s s' : Scheduler) (t counts : ℕ) (first later : Ticked)
      → s.disposed ≡ false
      → next_timer_object s ≡ (s', some t)
      → visit nothing ticks s' t ≡ done first
      → process_tick_always nothing ticks first.scheduler counts ≡ done later
      → process_tick_always nothing ticks s (suc counts) ≡ done (joined first later)
  unfolding process_tick_always
  process_tick_always_step s s' t counts first later alive next e f =
      (λ i. if alive i then done (silent s) else elim (next i).1 [
        | none ↦ process_tick_always nothing ticks (next i).0 counts
        | some t ↦ visit nothing ticks (next i).0 t >>= λ first.
            process_tick_always nothing ticks first.scheduler counts >>= λ later.
            done (joined first later)
      ])
      ∙ ap
          (λ (o : Outcome Ticked). o >>= λ first.
            process_tick_always nothing ticks first.scheduler counts >>= λ later.
            done (joined first later))
          e
      ∙ ap (λ (o : Outcome Ticked). o >>= λ later. done (joined first later)) f

  pub due-frame :
      (f g : ℕ → Timer) (ts : List ℕ) → All (λ y. f y ≡ g y) ts → due ticks f ts ≡ due ticks g ts
  due-frame f g [] h = refl
  due-frame f g (t ∷ ts) h =
      ap₂
        (λ (v : Timer) (rest : List (ℕ × ℕ)).
          if v.last == 0
          then rest
          else if is_due ticks v
          then (t, elapsed ticks v) ∷ rest
          else rest)
        h.0 (due-frame f g ts h.1)
