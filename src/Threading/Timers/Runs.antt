-- ===== src/Threading/Timers/Runs.antt =====
-- threading/Timer.cpp: starting and stopping keep the invariant, whatever the timer is.
use linux_stage_asio.Prelude.{
  ℕ, ◌≡◌, refl, sym, subst, ◌∙◌, inl, inr, Bool, true, false, ◌||◌, not, some, List, [], ◌∷◌, ◌++◌,
  arith, ◌==◌, if◌then◌else◌, Bool-cases, if_elim,
}
use linux_stage_asio.Prelude.Outcome.{Outcome, done, ◌>>=◌, Ensures}
use linux_stage_asio.Prelude.Sets.{member, member-split, member-snoc_self}
use linux_stage_asio.Core.LinkedList.{LinkedList}
use linux_stage_asio.Core.LinkedList.Removals.{remove-Removed}
use linux_stage_asio.Threading.Timers.{
  Timer, Scheduler, with_timer, started, scheduler_start, stopped, scheduler_stop, noted,
  timer_start, halted, released, timer_stop,
}
use linux_stage_asio.Threading.Timers.Invariant.{
  IsSound, Scheduled, IsScheduled, Scheduled-with_timer,
}
use linux_stage_asio.Threading.Timers.Changes.{
  scheduler_start_runs, started-Scheduled, stopped-Scheduled, not_left,
}

-- A timer that does not run may be given anything that leaves it so.
pub resting :
    (s : Scheduler) (xs : List ℕ) (t : ℕ) (v : Timer)
    → Scheduled s xs
    → member xs t ≡ false
    → v.enabled ≡ false
    → Scheduled (with_timer s t v) xs
resting s xs t v h out e = Scheduled-with_timer s xs t v h (e ∙ sym out) (λ m. cc)

module _ (s : Scheduler) (xs : List ℕ) (t : ℕ) (h : Scheduled s xs) where
  pub not_running : (s.timers t).enabled ≡ false → member xs t ≡ false
  not_running e = sym (h.enabled t) ∙ e

  not_running_disposed : (s.timers t).disposed ≡ true → member xs t ≡ false
  not_running_disposed e = elim (Bool-cases (member xs t)) [
    | inl m ↦ cc ((h.sound t m).not_disposed)
    | inr out ↦ out
  ]

  scheduler_start_idle :
      (now : ℕ)
      → (s.timers t).disposed ≡ false
      → (s.timers t).enabled ≡ false
      → ((s.timers t).interval == 0) ≡ true
      → scheduler_start s (some t) now ≡ (s, false)
  unfolding scheduler_start
  scheduler_start_idle now nd ne e = λ i.
      if h.alive i || nd i
      then (s, false)
      else if (h.watched t ∙ not_running ne) i
      then (s, true)
      else if e i
      then (s, false)
      else (started s t now, true)

  -- `Timer::Start`
  pub timer_start-IsScheduled : (now : ℕ) → IsScheduled (timer_start s t now).0
  unfolding timer_start
  timer_start-IsScheduled now =
      let P : Scheduler × Bool → Type 0 = λ r. IsScheduled r.0 in
      let timer = s.timers t in
      let answer = noted t now (scheduler_start s (some t) now) in
      if_elim P timer.disposed (s, false) _ (λ e. (xs, h))
        λ nd.
          if_elim P timer.enabled (s, true) _ (λ e. (xs, h))
            λ ne.
              if_elim P (not timer.attached) (s, false) answer (λ e. (xs, h))
                λ att. elim (Bool-cases (timer.interval == 0)) [
                  | inl zero_time ↦
                      subst (λ r. P (noted t now r))
                        (sym (scheduler_start_idle now nd ne zero_time)) (xs, h)
                  | inr some_time ↦
                      let sound : IsSound timer = record {
                        attached = ground arith;
                        not_disposed = nd;
                        period = ground arith;
                      } in
                      let out = not_running ne in
                      let begun = started-Scheduled s xs t now h out sound in
                      let is = begun.sound t (member-snoc_self xs t) in
                      subst (λ r. P (noted t now r))
                        (sym (scheduler_start_runs s xs t now h out sound))
                        (
                          xs ++ t ∷ [],
                          Scheduled-with_timer (started s t now) (xs ++ t ∷ []) t _ begun
                              (sym (member-snoc_self xs t))
                              (λ m. record {
                                attached = is.attached;
                                not_disposed = is.not_disposed;
                                period = is.period;
                              }),
                        )
                ]

  halted-Scheduled : member xs t ≡ false → Scheduled (halted s t).0 xs
  halted-Scheduled out =
      if_elim (λ (r : Scheduler × Bool). Scheduled r.0 xs) (s.timers t).enabled (s, false) _
        (λ e. h) (λ ne. resting s xs t _ h out ne)

-- A timer is out of the scheduler.
abbrev pub Halted : ℕ → Scheduler → Type 0
Halted t s = (xs : List ℕ) × Scheduled s xs × (member xs t ≡ false)

module _ (s : Scheduler) (xs : List ℕ) (t : ℕ) (h : Scheduled s xs) where
  -- `Stop` of a timer that runs takes it out.
  pub scheduler_stop-stopped :
      (us vs : List ℕ)
      → xs ≡ us ++ t ∷ vs
      → (s' : Scheduler) × (scheduler_stop s (some t) ≡ done (s', true))
        × Scheduled s' (us ++ vs)
        × (member (us ++ vs) t ≡ false)
  unfolding scheduler_stop
  scheduler_stop-stopped us vs split =
      let h' = subst (Scheduled s) split h in
      let (left, ran, out) = remove-Removed s.linked_list us t vs h'.linked in
      (
        stopped s t left,
        (λ i.
            if h.alive i
            then done (s, false)
            else ran i >>= λ (left : LinkedList × Bool). done (stopped s t left.0, true)),
        stopped-Scheduled s us t vs h' left out,
        not_left s us t vs h',
      )

  -- `Timer::Stop` leaves the timer out, whatever it was.
  pub timer_stop-Halted : Ensures (λ (r : Scheduler × Bool). Halted t r.0) (timer_stop s t)
  unfolding timer_stop
  timer_stop-Halted =
      let P : Outcome (Scheduler × Bool) → Type 0 =
        Ensures (λ (r : Scheduler × Bool). Halted t r.0) in
      let timer = s.timers t in
      if_elim P timer.disposed (done (s, false)) _ (λ e. (xs, h, not_running_disposed s xs t h e))
        λ nd.
          if_elim P (not timer.enabled) (done (halted s t)) _
            (λ ne.
              let out = not_running s xs t h (ground arith) in
              (xs, halted-Scheduled s xs t h out, out))
            λ en.
              let m : member xs t ≡ true = sym (h.enabled t) ∙ ground arith in
              if_elim P (not timer.attached) _ _ (λ na. cc ((h.sound t m).attached))
                λ att.
                  let (us, vs, split) = member-split xs t m in
                  let (s', ran, h', out) = scheduler_stop-stopped us vs split in
                  let loose = resting s' (us ++ vs) t _ h' out refl in
                  subst (λ (o : Outcome (Scheduler × Bool)). P (o >>= λ r. done (released t r)))
                    (sym ran) (us ++ vs, halted-Scheduled _ (us ++ vs) t loose out, out)
