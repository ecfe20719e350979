-- ===== src/Threading/Timers/Shutdown.antt =====
-- stage/threading/TimerScheduler.cpp: the disposal of a scheduler.
use linux_stage_asio.Prelude.{
  ℕ, zero, suc, ◌<◌, ◌≡◌, refl, ap, ◌∙◌, inl, inr, Bool, true, false, none, List, [], ◌∷◌, arith,
  if◌then◌else◌, Option-cases, length,
}
use linux_stage_asio.Prelude.Outcome.{done, ◌>>=◌}
use linux_stage_asio.Prelude.Sets.{member-split_self}
use linux_stage_asio.Core.LinkedList.Links.{head_or, Represents}
use linux_stage_asio.Threading.Timers.{
  Scheduler, scheduler_stop, stop_from, closed, scheduler_dispose,
}
use linux_stage_asio.Threading.Timers.Invariant.{Scheduled}
use linux_stage_asio.Threading.Timers.Runs.{scheduler_stop-stopped}

module _ (s : Scheduler) (x : ℕ) (xs : List ℕ) (h : Scheduled s (x ∷ xs)) where
  first_of_all :
      (s' : Scheduler) × (scheduler_stop s (s.linked_list.nodes x).value ≡ done (s', true))
      × Scheduled s' xs
  first_of_all =
      let (s', ran, left, out) = scheduler_stop-stopped s (x ∷ xs) x h [] xs refl in
      (s', ap (scheduler_stop s) (h.valued x (member-split_self [] x xs)) ∙ ran, left)

stop_from-Scheduled :
    (rounds : ℕ) (s : Scheduler) (xs : List ℕ)
    → Scheduled s xs
    → length xs < rounds
    → (s' : Scheduler) × (stop_from rounds s (head_or xs none) ≡ done s') × Scheduled s' []
unfolding stop_from
stop_from-Scheduled zero s xs h enough = absurd (omega arith)
stop_from-Scheduled (suc rounds) s [] h enough = (s, refl, h)
stop_from-Scheduled (suc rounds) s (x ∷ xs) h enough =
    let (s1, ran, left) = first_of_all s x xs h in
    let (s2, later, out) = stop_from-Scheduled rounds s1 xs left (omega arith) in
    (
      s2,
      ap (λ m. m >>= λ (r : Scheduler × Bool). stop_from rounds r.0 (s.linked_list.nodes x).next)
            ran
          ∙ ap (stop_from rounds s1) h.linked.chain.1
          ∙ later,
      out,
    )

away-Scheduled :
    (s : Scheduler) (xs : List ℕ) → Scheduled s xs → Scheduled (record s { current = none }) xs
away-Scheduled s xs h = record {
  alive = h.alive;
  linked = h.linked;
  watched = h.watched;
  enabled = h.enabled;
  sound = h.sound;
  valued = h.valued;
  standing = λ t e. cc;
  period = h.period;
}

nowhere : (s : Scheduler) → Scheduled s [] → s.current ≡ none
nowhere s h = elim (Option-cases s.current) [
  | inl e ↦ e
  | inr (t, e) ↦ let inside : false ≡ true = h.standing t e in cc
]

-- The disposal of a scheduler ends within a round for each of its timers and one more, without the use
-- of a NULL pointer: the scheduler is disposed, its list and table are empty, and no timer is enabled.
pub scheduler_dispose-closed :
    (s : Scheduler) (xs : List ℕ) (rounds : ℕ)
    → Scheduled s xs
    → length xs < rounds
    → (s' : Scheduler) × (scheduler_dispose rounds s ≡ done s')
      × (s'.disposed ≡ true)
      × Represents s'.linked_list []
      × (s'.table ≡ [])
      × (s'.current ≡ none)
      × ((t : ℕ) → (s'.timers t).enabled ≡ false)
unfolding scheduler_dispose
scheduler_dispose-closed s xs rounds h enough =
    let away : Scheduler = record s { current = none } in
    let (s', ran, out) = stop_from-Scheduled rounds away xs (away-Scheduled s xs h) enough in
    (
      closed s',
      (λ i.
            (if h.alive i then done away else stop_from rounds away (h.linked.front i))
            >>= λ (s' : Scheduler). done (closed s'))
          ∙ ap (λ m. m >>= λ (s' : Scheduler). done (closed s')) ran,
      refl,
      record { front = refl; back = refl; counted = refl; distinct = tt; chain = tt },
      refl,
      nowhere s' out,
      out.enabled,
    )
