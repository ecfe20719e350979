-- ===== src/Tests/Timers.antt =====
-- Timers that are started, stopped and called.
use linux_stage_asio.Prelude.{
  ℕ, ◌≡◌, refl, true, false, Option, none, some, List, [], ◌∷◌, arith, ◌==◌, if◌then◌else◌, length,
}
use linux_stage_asio.Prelude.Sets.{member}
use linux_stage_asio.Prelude.Outcome.{Outcome, done}
use linux_stage_asio.Core.LinkedList.Links.{Represents}
use linux_stage_asio.Threading.Timers.Shutdown.{scheduler_dispose-closed}
use linux_stage_asio.Threading.Timers.{
  scheduler_dispose, Scheduler, fresh, Call, start_timer, stop_timer, set_timer_interval, call,
  Ticked, do_events, started, timed, process_tick_always, timer_start, timer_stop, set_interval,
  scheduler_start, scheduler_stop, next_timer_object, is_watch, calls,
}
use linux_stage_asio.Core.LinkedList.{add_last, remove, remove_first, unlink}
use linux_stage_asio.Threading.Timers.Changes.{started-Scheduled}
use linux_stage_asio.Threading.Timers.Invariant.{Scheduled, IsScheduled}
use linux_stage_asio.Threading.Timers.Calls.{Reach, begin, made, Reach-safe}
use linux_stage_asio.Threading.Timers.Visits.{nothing, due, seen}
use linux_stage_asio.Threading.Timers.Sweep.{process_tick_always-round}

-- Timer 3 has an interval of 100, every other one of 50.
abbrev armed : Scheduler
armed = record fresh {
  timers = λ t. record {
    attached = true;
    enabled = false;
    disposed = false;
    last = 0;
    interval = if t == 3 then 100 else 50;
  };
}

armed-Scheduled : Scheduled armed []
armed-Scheduled = record {
  alive = refl;
  linked = record { front = refl; back = refl; counted = refl; distinct = tt; chain = tt };
  watched = λ t. refl;
  enabled = λ t. refl;
  sound = λ t h. absurd (ground arith);
  valued = λ t h. absurd (ground arith);
  standing = λ t h. absurd (ground arith);
  period = λ t h. absurd (ground arith);
}

abbrev both : Scheduler
both = started (started armed 3 1000) 4 1000

both-Scheduled : Scheduled both (3 ∷ 4 ∷ [])
both-Scheduled =
    started-Scheduled (started armed 3 1000) (3 ∷ []) 4 1000
      (started-Scheduled armed [] 3 1000 armed-Scheduled refl
        (record { attached = refl; not_disposed = refl; period = omega arith }))
      refl (record { attached = refl; not_disposed = refl; period = omega arith })

process_tick_always-round_example :
    (r : Ticked) × (process_tick_always nothing 1060 both 2 ≡ done r)
    × (r.told ≡ due 1060 both.timers (3 ∷ 4 ∷ []))
    × Scheduled r.scheduler (3 ∷ 4 ∷ [])
    × ((u : ℕ)
        → r.scheduler.timers u
          ≡ (if member (3 ∷ 4 ∷ []) u then seen 1060 (both.timers u) else both.timers u))
unfolding add_last
process_tick_always-round_example =
    process_tick_always-round 1060 both [] (3 ∷ 4 ∷ []) both-Scheduled refl

scheduler_dispose-closed_example :
    (s : Scheduler) × (scheduler_dispose 3 both ≡ done s)
    × (s.disposed ≡ true)
    × Represents s.linked_list []
    × (s.table ≡ [])
    × (s.current ≡ none)
    × ((t : ℕ) → (s.timers t).enabled ≡ false)
scheduler_dispose-closed_example =
    scheduler_dispose-closed both (3 ∷ 4 ∷ []) 3 both-Scheduled (omega arith)

-- At 1060 the interval of timer 4 is over, that of timer 3 is not.
due_four : due 1060 both.timers (3 ∷ 4 ∷ []) ≡ (4, 60) ∷ []
due_four = refl

-- Timer 8 is given an interval, started, and stops itself in its handler.
abbrev timed_eight : Scheduler
timed_eight = (timed fresh 8 500).0

abbrev running_eight : Scheduler
running_eight = (timer_start timed_eight 8 1000).0

abbrev stops_itself : ℕ → ℕ → List Call
stops_itself t elapsed = stop_timer t ∷ []

eight : Reach running_eight
unfolding call set_interval
eight = made 1000 (start_timer 8) (made 900 (set_timer_interval 8 500) begin refl) refl

Reach-safe_example :
    IsScheduled running_eight
    × ((now : ℕ) (c : Call) → (s' : Scheduler) × (call running_eight now c ≡ done s'))
    × ((handler : ℕ → ℕ → List Call) (ticks : ℕ)
        → (r : Ticked) × (do_events handler ticks running_eight ≡ done r)
          × (r.events ≡ length r.told))
Reach-safe_example = Reach-safe running_eight eight

-- The handler that stops its own timer is called once, and the list is empty then.
abbrev eight_told : Outcome Ticked → Option (List (ℕ × ℕ) × ℕ)
eight_told (done r) = some (r.told, r.scheduler.linked_list.count)
eight_told _ = none

stopped_eight :
    eight_told (process_tick_always stops_itself 1500 running_eight 1) ≡ some ((8, 500) ∷ [], 0)
unfolding process_tick_always next_timer_object timer_start scheduler_start is_watch add_last calls
    timer_stop scheduler_stop remove unlink remove_first
stopped_eight = refl
