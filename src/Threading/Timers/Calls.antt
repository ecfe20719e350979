-- ===== src/Threading/Timers/Calls.antt =====
-- threading: whatever the handlers of timers do, and whenever the scheduler is run, the invariant holds
-- and no NULL pointer is used.
use linux_stage_asio.Prelude.{
  ℕ, zero, suc, ◌+◌, ◌-◌, ◌<◌, min, ◌≡◌, refl, sym, subst, ◌∙◌, Bool, true, false, ◌&&◌, ◌||◌, not,
  none, some, List, [], ◌∷◌, ◌++◌, arith, ltb, leb, ◌==◌, if◌then◌else◌, length, length-append,
  if_elim,
}
use linux_stage_asio.Prelude.Outcome.{
  Outcome, done, ◌>>=◌, Ensures, Ensures-bind, done_of_Ensures, ensured,
}
use linux_stage_asio.Prelude.Sets.{member}
use linux_stage_asio.Core.Segment.{is_negative}
use linux_stage_asio.Core.LinkedList.{Pointer}
use linux_stage_asio.Threading.Timers.{
  Scheduler, with_timer, timer_stop, timed, set_interval, freed, timer_dispose, Call, start_timer,
  stop_timer, set_timer_interval, dispose_timer, call, calls, Ticked, silent, visit,
  process_tick_always, do_events, fresh,
}
use linux_stage_asio.Threading.Timers.Invariant.{
  Scheduled, IsScheduled, Scheduled-with_timer, Scheduled-blank, fresh-Scheduled,
}
use linux_stage_asio.Threading.Timers.Runs.{
  resting, not_running, timer_start-IsScheduled, Halted, timer_stop-Halted,
}
use linux_stage_asio.Threading.Timers.Turns.{
  standing_on, Scheduled-standing_on, next_timer_object_at, turned-member, next_timer_object_empty,
}

interval_test : (ms : ℕ) → (ms == 0) ≡ false → 0 < ms
interval_test ms e = ground arith

freed-Scheduled :
    (s : Scheduler) (xs : List ℕ) (t : ℕ)
    → Scheduled s xs
    → member xs t ≡ false
    → Scheduled (freed s t) xs
freed-Scheduled s xs t h out =
    resting _ xs t _ (Scheduled-blank s xs t none h out) out (h.enabled t ∙ out)

module _ (s : Scheduler) (xs : List ℕ) (t : ℕ) (h : Scheduled s xs) where
  timed-Scheduled : (ms : ℕ) → (member xs t ≡ true → 0 < ms) → Scheduled (timed s t ms).0 xs
  timed-Scheduled ms pos = Scheduled-with_timer s xs t _ h (h.enabled t) (λ m. record {
    attached = (h.sound t m).attached;
    not_disposed = (h.sound t m).not_disposed;
    period = pos m;
  })

  set_interval-IsScheduled :
      (milliseconds : ℕ)
      → Ensures (λ (r : Scheduler × Bool). IsScheduled r.0) (set_interval s t milliseconds)
  unfolding set_interval
  set_interval-IsScheduled milliseconds =
      let P : Scheduler × Bool → Type 0 = λ r. IsScheduled r.0 in
      let ms : ℕ = if is_negative milliseconds then 0 else milliseconds in
      if_elim (Ensures P) (ms == 0 && (s.timers t).enabled) _ (done (timed s t ms))
        (λ e.
          Ensures-bind (λ (r : Scheduler × Bool). Halted t r.0) P (timer_stop s t) _
            (timer_stop-Halted s xs t h)
            λ r (ys, k, out).
              if_elim P r.1 (timed r.0 t ms) (r.0, false)
                (λ ok. (ys, resting r.0 ys t _ k out (k.enabled t ∙ out))) (λ no_. (ys, k)))
        (λ e. (
          xs,
          timed-Scheduled ms
              (λ m. interval_test ms (ms_test (ms == 0) (s.timers t).enabled e (h.enabled t ∙ m))),
        ))
    where
      ms_test : (a b : Bool) → (a && b) ≡ false → b ≡ true → a ≡ false
      ms_test a b e f = ground arith

  timer_dispose-IsScheduled : Ensures IsScheduled (timer_dispose s t)
  unfolding timer_dispose
  timer_dispose-IsScheduled =
      if_elim (Ensures IsScheduled) (s.timers t).disposed (done s) _ (λ e. (xs, h))
        λ nd.
          if_elim (Ensures IsScheduled) (s.timers t).enabled _ (done (freed s t))
            (λ en.
              Ensures-bind (λ (r : Scheduler × Bool). Halted t r.0) IsScheduled (timer_stop s t) _
                (timer_stop-Halted s xs t h) λ r (ys, k, out). (ys, freed-Scheduled r.0 ys t k out))
            (λ ne. (xs, freed-Scheduled s xs t h (not_running s xs t h ne)))

some_of : (t u : ℕ) → some t ≡ some u → t ≡ u
some_of t u e = cc

pub call-IsScheduled :
    (s : Scheduler) (xs : List ℕ) (now : ℕ) (c : Call)
    → Scheduled s xs
    → Ensures IsScheduled (call s now c)
unfolding call
call-IsScheduled s xs now (start_timer t) h = timer_start-IsScheduled s xs t h now
call-IsScheduled s xs now (stop_timer t) h =
    Ensures-bind (λ (r : Scheduler × Bool). Halted t r.0) IsScheduled (timer_stop s t) _
      (timer_stop-Halted s xs t h) (λ r (ys, k, out). (ys, k))
call-IsScheduled s xs now (set_timer_interval t ms) h =
    Ensures-bind (λ (r : Scheduler × Bool). IsScheduled r.0) IsScheduled (set_interval s t ms) _
      (set_interval-IsScheduled s xs t h ms) (λ r k. k)
call-IsScheduled s xs now (dispose_timer t) h = timer_dispose-IsScheduled s xs t h

calls-IsScheduled :
    (s : Scheduler) (now : ℕ) (cs : List Call)
    → IsScheduled s
    → Ensures IsScheduled (calls s now cs)
unfolding calls
calls-IsScheduled s now [] h = h
calls-IsScheduled s now (c ∷ cs) (xs, h) =
    Ensures-bind IsScheduled IsScheduled (call s now c) (λ s'. calls s' now cs)
      (call-IsScheduled s xs now c h) (λ s' k. calls-IsScheduled s' now cs k)

-- The number of events is that of the handlers that were called.
pub record Counted (r : Ticked) : Type 0 where
  pub scheduled : IsScheduled r.scheduler
  pub counted : r.events ≡ length r.told

sound_runs :
    (interval : ℕ) (disposed enabled : Bool)
    → 0 < interval
    → disposed ≡ false
    → enabled ≡ true
    → (interval == 0 || disposed || not enabled) ≡ true
    → ⊥
sound_runs interval disposed enabled h k l e = ground arith

module _ (handler : ℕ → ℕ → List Call) (ticks : ℕ) where
  quiet : (s : Scheduler) → IsScheduled s → Counted (silent s)
  quiet s k = record { scheduled = k; counted = refl }

  visit-Counted :
      (s : Scheduler) (xs : List ℕ) (t : ℕ)
      → Scheduled s xs
      → member xs t ≡ true
      → Ensures Counted (visit handler ticks s t)
  unfolding visit
  visit-Counted s xs t h m =
      let timer = s.timers t in
      let marked = with_timer s t (record timer { last = ticks }) in
      let P : Outcome Ticked → Type 0 = Ensures Counted in
      let still : Scheduled marked xs = Scheduled-with_timer s xs t _ h (h.enabled t) (λ m. record {
        attached = (h.sound t m).attached;
        not_disposed = (h.sound t m).not_disposed;
        period = (h.sound t m).period;
      }) in
      if_elim P (timer.last == 0) (done (silent marked)) _ (λ e. quiet marked (xs, still))
        λ ran.
          if_elim P (timer.interval == 0 || timer.disposed || not timer.enabled) _ _
            (λ e. absurd (
              sound_runs timer.interval timer.disposed timer.enabled (h.sound t m).period
                (h.sound t m).not_disposed (h.enabled t ∙ m) e))
            λ runs.
              if_elim P (ltb ticks timer.last || leb timer.interval (ticks - timer.last)) _
                (done (silent s))
                (λ due.
                  Ensures-bind IsScheduled Counted (calls marked ticks (handler t _)) _
                    (calls-IsScheduled marked ticks (handler t _) (xs, still))
                    (λ s' k. record { scheduled = k; counted = refl }))
                (λ early. quiet s (xs, h))

  turn : ℕ → Scheduler × Pointer → Outcome Ticked
  turn counts (s, timer) = elim timer [
    | none ↦ process_tick_always handler ticks s counts
    | some t ↦ visit handler ticks s t >>= λ first.
        process_tick_always handler ticks first.scheduler counts >>= λ later. done (record {
          scheduler = later.scheduler;
          events = first.events + later.events;
          told = first.told ++ later.told;
        })
  ]

  process_tick_always-Counted :
      (s : Scheduler) (counts : ℕ)
      → IsScheduled s
      → Ensures Counted (process_tick_always handler ticks s counts)
  unfolding process_tick_always turn
  process_tick_always-Counted s zero h = record { scheduled = h; counted = refl }
  process_tick_always-Counted s (suc counts) ([], h) =
      let onward =
        process_tick_always-Counted (standing_on s none) counts
          ([], Scheduled-standing_on s [] none h (λ t e. cc)) in
      if_elim (Ensures Counted) s.disposed (done (silent s)) _ (λ e. quiet s ([], h))
        λ alive.
          subst (λ r. Ensures Counted (turn counts r)) (sym (next_timer_object_empty s h)) onward
  process_tick_always-Counted s (suc counts) (x ∷ xs, h) =
      let (t, e, m) = turned-member s x xs h in
      let h' =
        Scheduled-standing_on s (x ∷ xs) (some t) h
          (λ u same. subst (λ w. member (x ∷ xs) w ≡ true) (some_of t u same) m) in
      if_elim (Ensures Counted) s.disposed (done (silent s)) _ (λ e. quiet s (x ∷ xs, h))
        λ alive.
          subst (λ r. Ensures Counted (turn counts r))
            (sym (next_timer_object_at s (x ∷ xs) h t e m))
            (Ensures-bind Counted Counted (visit handler ticks (standing_on s (some t)) t) _
              (visit-Counted (standing_on s (some t)) (x ∷ xs) t h' m)
              λ first c.
                Ensures-bind Counted Counted
                  (process_tick_always handler ticks first.scheduler counts) _
                  (process_tick_always-Counted first.scheduler counts c.scheduled)
                  λ later d. record {
                    scheduled = d.scheduled;
                    counted =
                        omega (arith, c.counted, d.counted, length-append first.told later.told);
                  })

  do_events-Counted : (s : Scheduler) → IsScheduled s → Ensures Counted (do_events handler ticks s)
  unfolding do_events
  do_events-Counted s (xs, h) =
      let P : Outcome Ticked → Type 0 = Ensures Counted in
      let later : Scheduler = record s { last_time = ticks } in
      let h' : Scheduled later xs = record {
        alive = h.alive;
        linked = h.linked;
        watched = h.watched;
        enabled = h.enabled;
        sound = h.sound;
        valued = h.valued;
        standing = h.standing;
        period = h.period;
      } in
      if_elim P (s.last_time == 0) (done (silent later)) _ (λ e. quiet later (xs, h'))
        λ a.
          if_elim P (min 1000 s.linked_list.count == 0) (done (silent s)) _ (λ e. quiet s (xs, h))
            λ b.
              if_elim P _ (process_tick_always handler ticks later (min 1000 s.linked_list.count))
                (done (silent s)) (λ e. process_tick_always-Counted later _ (xs, h'))
                (λ e. quiet s (xs, h))

-- What the program does with timers: calls from outside, and runs of the scheduler with handlers that
-- make calls.
pub data Reach : Scheduler → Type 0 where
  begin : Reach fresh
  made : {s s' : Scheduler} (now : ℕ) (c : Call) → Reach s → call s now c ≡ done s' → Reach s'
  ran :
      {s s' : Scheduler} (handler : ℕ → ℕ → List Call) (ticks : ℕ) (r : Ticked)
      → Reach s
      → do_events handler ticks s ≡ done r
      → r.scheduler ≡ s'
      → Reach s'

Reach-IsScheduled : {s : Scheduler} → Reach s → IsScheduled s
Reach-IsScheduled begin = ([], fresh-Scheduled)
Reach-IsScheduled (made {s} now c reach e) =
    let (xs, h) = Reach-IsScheduled reach in
    ensured IsScheduled (call s now c) _ e (call-IsScheduled s xs now c h)
Reach-IsScheduled (ran {s} handler ticks r reach e same) =
    subst IsScheduled same
      (ensured Counted (do_events handler ticks s) r e
        (do_events-Counted handler ticks s (Reach-IsScheduled reach))).scheduled

-- From a fresh scheduler on, through calls and runs in any order and with any handlers, every call and
-- every run comes to an end without the use of a NULL pointer; a run counts the handlers that it calls.
-- In each scheduler on the way the linked list stands for distinct timers, which are those in the
-- table and those that are enabled; they are attached, not disposed, and have an interval.
pub Reach-safe :
    (s : Scheduler)
    → Reach s
    → IsScheduled s
      × ((now : ℕ) (c : Call) → (s' : Scheduler) × (call s now c ≡ done s'))
      × ((handler : ℕ → ℕ → List Call) (ticks : ℕ)
          → (r : Ticked) × (do_events handler ticks s ≡ done r) × (r.events ≡ length r.told))
Reach-safe s reach =
    let (xs, h) = Reach-IsScheduled reach in
    (
      (xs, h),
      (λ now c.
          let (s', e, k) =
            done_of_Ensures IsScheduled (call s now c) (call-IsScheduled s xs now c h) in
          (s', e)),
      (λ handler ticks.
          let (r, e, k) =
            done_of_Ensures Counted (do_events handler ticks s)
              (do_events-Counted handler ticks s (xs, h)) in
          (r, e, k.counted)),
    )
