-- ===== src/Threading/Timers.antt =====
-- stage/threading/Timer.cpp and TimerScheduler.cpp: timers, and the scheduler that visits them in turn.
-- A timer is its address, which is the address of its node too. The locks are recursive and held
-- through each operation; the clock's reading is an argument.
pub mod Invariant
pub mod Changes
pub mod Runs
pub mod Calls
pub mod Turns
pub mod Rotation
pub mod Visits
pub mod Sweep
pub mod Shutdown
use linux_stage_asio.Prelude.{
  ℕ, zero, suc, ◌+◌, ◌-◌, min, Bool, true, false, ◌&&◌, ◌||◌, not, none, some, List, [], ◌∷◌, ◌++◌,
  ltb, leb, ◌==◌, if◌then◌else◌, length,
}
use linux_stage_asio.Prelude.Outcome.{Outcome, done, refused, ◌>>=◌}
use linux_stage_asio.Prelude.Sets.{member, erase_key}
use linux_stage_asio.Core.Segment.{is_negative}
use linux_stage_asio.Core.LinkedList.{
  Pointer, LinkedList, same_pointer, update, add_last, remove, forgotten,
}

-- `attached` says that `_scheduler` is not NULL.
pub record Timer : Type 0 where
  pub attached : Bool
  pub enabled : Bool
  pub disposed : Bool
  pub last : ℕ
  pub interval : ℕ

-- `table` is the set of keys of `_objectTable`, whose values are the same timers.
pub record Scheduler : Type 0 where
  pub disposed : Bool
  pub last_time : ℕ
  pub min_period : ℕ
  pub current : Pointer
  pub linked_list : LinkedList
  pub table : List ℕ
  pub timers : ℕ → Timer

abbrev pub empty_list : LinkedList
empty_list = record {
  first = none;
  last = none;
  count = 0;
  nodes = λ _. record { previous = none; next = none; value = none; owned = false };
}

-- A scheduler with timers that have been constructed over it.
abbrev pub fresh : Scheduler
fresh = record {
  disposed = false;
  last_time = 0;
  min_period = 1;
  current = none;
  linked_list = empty_list;
  table = [];
  timers =
      λ _. record { attached = true; enabled = false; disposed = false; last = 0; interval = 0 };
}

abbrev pub set_timer : (ℕ → Timer) → ℕ → Timer → ℕ → Timer
set_timer timers t v q = if t == q then v else timers q

abbrev pub with_timer : Scheduler → ℕ → Timer → Scheduler
with_timer s t v = record s { timers = set_timer s.timers t v }

-- The node block of a timer without pointers, with a new value.
abbrev pub blank : LinkedList → ℕ → Pointer → LinkedList
blank l t value = record l {
  nodes = update l.nodes t (record { previous = none; next = none; value = value; owned = false });
}

unfoldable pub is_watch : Scheduler → ℕ → Bool
is_watch s t = if s.disposed then false else member s.table t

abbrev pub idle : Scheduler → Bool
idle s = s.min_period == 0 || leb s.linked_list.count 0 || length s.table == 0

-- What `Start` does behind its guards.
abbrev pub started : Scheduler → ℕ → ℕ → Scheduler
started s t now =
    let timer = s.timers t in
    record s {
      timers = set_timer s.timers t (record timer { enabled = true; last = now });
      current = if idle s then none else s.current;
      min_period =
          if idle s
          then timer.interval
          else if ltb timer.interval s.min_period
          then timer.interval
          else s.min_period;
      table = t ∷ s.table;
      linked_list = (add_last (blank s.linked_list t (some t)) (some t)).0;
    }

-- `TimerScheduler::Start`
unfoldable pub scheduler_start : Scheduler → Pointer → ℕ → Scheduler × Bool
scheduler_start s none now = (s, false)
scheduler_start s (some t) now =
    if s.disposed || (s.timers t).disposed
    then (s, false)
    else if member s.table t
    then (s, true)
    else if (s.timers t).interval == 0
    then (s, false)
    else (started s t now, true)

abbrev pub or_first : Pointer → Pointer → Pointer
or_first none first = first
or_first (some next) first = some next

-- Where `_currentNode` goes when its node is taken out.
abbrev pub moved_on : Scheduler → ℕ → Pointer
moved_on s t =
    if same_pointer (some t) s.current
    then or_first (s.linked_list.nodes t).next s.linked_list.first
    else s.current

-- What `Stop` does behind the removal of the node.
abbrev pub stopped : Scheduler → ℕ → LinkedList → Scheduler
stopped s t left =
    let table = erase_key s.table t in
    let none_left = leb left.count 0 || length table == 0 in
    record s {
      timers = set_timer s.timers t (record (s.timers t) { last = 0; enabled = false });
      current = if none_left then none else moved_on s t;
      min_period = if none_left then 0 else s.min_period;
      table = table;
      linked_list = blank left t none;
    }

-- `TimerScheduler::Stop`
unfoldable pub scheduler_stop : Scheduler → Pointer → Outcome (Scheduler × Bool)
scheduler_stop s none = done (s, false)
scheduler_stop s (some t) =
    if s.disposed
    then done (s, false)
    else remove s.linked_list (some t) >>= λ (left : LinkedList × Bool).
        done (stopped s t left.0, true)

-- What `Timer::Start` does with the scheduler's answer.
abbrev pub noted : ℕ → ℕ → Scheduler × Bool → Scheduler × Bool
noted t now (s, answer) =
    if answer
    then (with_timer s t (record (s.timers t) { enabled = true; last = now }), true)
    else (s, (s.timers t).enabled)

-- `Timer::Start`
unfoldable pub timer_start : Scheduler → ℕ → ℕ → Scheduler × Bool
timer_start s t now =
    if (s.timers t).disposed
    then (s, false)
    else if (s.timers t).enabled
    then (s, true)
    else if not (s.timers t).attached
    then (s, false)
    else noted t now (scheduler_start s (some t) now)

-- The end of `Timer::Stop`.
abbrev pub halted : Scheduler → ℕ → Scheduler × Bool
halted s t =
    if (s.timers t).enabled
    then (s, false)
    else (with_timer s t (record (s.timers t) { last = 0 }), true)

-- What `Timer::Stop` does with the scheduler's answer.
abbrev pub released : ℕ → Scheduler × Bool → Scheduler × Bool
released t (s, answer) =
    if answer
    then halted (with_timer s t (record (s.timers t) { enabled = false })) t
    else halted s t

-- `Timer::Stop`
unfoldable pub timer_stop : Scheduler → ℕ → Outcome (Scheduler × Bool)
timer_stop s t =
    let loose = with_timer s t (record (s.timers t) { last = 0; enabled = false }) in
    if (s.timers t).disposed
    then done (s, false)
    else if not (s.timers t).enabled
    then done (halted s t)
    else if not (s.timers t).attached
    then done (halted loose t)
    else scheduler_stop s (some t) >>= λ (r : Scheduler × Bool). done (released t r)

-- `_interval = milliseconds; return _interval`
abbrev pub timed : Scheduler → ℕ → ℕ → Scheduler × Bool
timed s t ms = (with_timer s t (record (s.timers t) { interval = ms }), not (ms == 0))

-- `Timer::SetInterval` of a 32-bit number
unfoldable pub set_interval : Scheduler → ℕ → ℕ → Outcome (Scheduler × Bool)
set_interval s t milliseconds =
    let ms : ℕ = if is_negative milliseconds then 0 else milliseconds in
    if ms == 0 && (s.timers t).enabled
    then (timer_stop s t >>= λ (r : Scheduler × Bool).
        done (if r.1 then timed r.0 t ms else (r.0, false)))
    else done (timed s t ms)

-- The end of `Timer::Dispose`.
abbrev pub freed : Scheduler → ℕ → Scheduler
freed s t =
    with_timer (record s { linked_list = blank s.linked_list t none }) t
      (record (s.timers t) { attached = false; disposed = true })

-- `Timer::Dispose`
unfoldable pub timer_dispose : Scheduler → ℕ → Outcome Scheduler
timer_dispose s t =
    if (s.timers t).disposed
    then done s
    else if (s.timers t).enabled
    then (timer_stop s t >>= λ (r : Scheduler × Bool). done (freed r.0 t))
    else done (freed s t)

unfoldable pub get_tick_always_interval_time : Scheduler → ℕ
get_tick_always_interval_time s = if s.min_period == 0 then 1000 else s.min_period

unfoldable pub get_max_next_timer_count : Scheduler → ℕ
get_max_next_timer_count s = min 1000 s.linked_list.count

-- The node behind the current one, or the first.
abbrev pub turned : Scheduler → Pointer
turned s =
    let moved : Pointer = elim s.current [
      | none ↦ none
      | some node ↦ (s.linked_list.nodes node).next
    ] in
    or_first moved s.linked_list.first

unfoldable pub next_timer_object : Scheduler → Scheduler × Pointer
next_timer_object s =
    let next = turned s in
    if s.disposed || leb s.linked_list.count 0 || length s.table == 0
    then (record s { current = none }, none)
    else elim next [
      | none ↦ (record s { current = none }, none)
      | some node ↦ (record s { current = some node }, (s.linked_list.nodes node).value)
    ]

-- What a handler of `TickEvent` may do with timers.
pub data Call : Type 0 where
  start_timer : ℕ → Call
  stop_timer : ℕ → Call
  set_timer_interval : ℕ → ℕ → Call
  dispose_timer : ℕ → Call

unfoldable pub call : Scheduler → ℕ → Call → Outcome Scheduler
call s now (start_timer t) = done (timer_start s t now).0
call s now (stop_timer t) = timer_stop s t >>= λ (r : Scheduler × Bool). done r.0
call s now (set_timer_interval t ms) = set_interval s t ms >>= λ (r : Scheduler × Bool). done r.0
call s now (dispose_timer t) = timer_dispose s t

unfoldable pub calls : Scheduler → ℕ → List Call → Outcome Scheduler
unfolding call
calls s now [] = done s
calls s now (c ∷ cs) = call s now c >>= λ s'. calls s' now cs

-- The number of events, and the timers that ticked with the time that each is told.
pub record Ticked : Type 0 where
  pub scheduler : Scheduler
  pub events : ℕ
  pub told : List (ℕ × ℕ)

abbrev pub silent : Scheduler → Ticked
silent s = record { scheduler = s; events = 0; told = [] }

-- `handler` gives what the handler of a timer does when it is told the time elapsed.
module _ (handler : ℕ → ℕ → List Call) (ticks : ℕ) where
  -- One timer's turn: `none` for `continue` and for a time that has not come.
  unfoldable pub visit : Scheduler → ℕ → Outcome Ticked
  visit s t =
      let timer = s.timers t in
      let elapsed : ℕ = if ltb ticks timer.last then 0 else ticks - timer.last in
      let marked : Scheduler = with_timer s t (record timer { last = ticks }) in
      if timer.last == 0
      then done (silent marked)
      else if timer.interval == 0 || timer.disposed || not timer.enabled
      then (scheduler_stop s (some t) >>= λ (r : Scheduler × Bool). done (silent r.0))
      else if ltb ticks timer.last || leb timer.interval (ticks - timer.last)
      then (calls marked ticks (handler t elapsed) >>= λ s'.
          done (record { scheduler = s'; events = 1; told = (t, elapsed) ∷ [] }))
      else done (silent s)

  unfoldable pub process_tick_always : Scheduler → ℕ → Outcome Ticked
  unfolding visit
  process_tick_always s zero = done (silent s)
  process_tick_always s (suc counts) =
      let (s', timer) = next_timer_object s in
      let skipped = process_tick_always s' counts in
      if s.disposed then done (silent s) else elim timer [
        | none ↦ skipped
        | some t ↦ visit s' t >>= λ first. process_tick_always first.scheduler counts >>= λ later.
            done (record {
              scheduler = later.scheduler;
              events = first.events + later.events;
              told = first.told ++ later.told;
            })
      ]

  unfoldable pub do_events : Scheduler → Outcome Ticked
  unfolding process_tick_always get_max_next_timer_count get_tick_always_interval_time
  do_events s =
      let counts = get_max_next_timer_count s in
      let interval = get_tick_always_interval_time s in
      if s.last_time == 0
      then done (silent (record s { last_time = ticks }))
      else if counts == 0
      then done (silent s)
      else if ltb ticks s.last_time || leb interval (ticks - s.last_time)
      then process_tick_always (record s { last_time = ticks }) counts
      else done (silent s)

-- The loop of `TimerScheduler::Dispose`, for at most so many nodes; `refused` is for a list that is longer.
-- The node behind is looked up before the timer is stopped.
unfoldable pub stop_from : ℕ → Scheduler → Pointer → Outcome Scheduler
unfolding scheduler_stop
stop_from zero s p = refused
stop_from (suc rounds) s none = done s
stop_from (suc rounds) s (some p) =
    let n = s.linked_list.nodes p in
    scheduler_stop s n.value >>= λ (r : Scheduler × Bool). stop_from rounds r.0 n.next

abbrev pub closed : Scheduler → Scheduler
closed s = record s {
  disposed = true;
  table = [];
  linked_list = forgotten s.linked_list s.linked_list.nodes;
}

-- `TimerScheduler::Dispose`, less what it tells its host.
unfoldable pub scheduler_dispose : ℕ → Scheduler → Outcome Scheduler
unfolding stop_from
scheduler_dispose rounds s =
    let away : Scheduler = record s { current = none } in
    (if s.disposed then done away else stop_from rounds away away.linked_list.first) >>= λ s'.
    done (closed s')
