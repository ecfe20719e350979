-- ===== src/Stage/Sendback/Ticks.antt =====
-- stage/stage/ServerSendbackController.cpp: what a tick does to a queue.
use linux_stage_asio.Prelude.{
  ℕ, ◌+◌, ◌≡◌, ◌≢◌, inl, inr, Bool, true, false, ◌&&◌, not, none, some, List, [], ◌∷◌, arith, ◌==◌,
  if◌then◌else◌, Bool-cases, if_elim,
}
use linux_stage_asio.Prelude.Words.{Bytes}
use linux_stage_asio.Stage.Sendback.{
  ServerSendbackSettings, ServerSendbackContext, ServerObjectController, ServerSendbackController,
  same_text, lookup, reset_sendback, expired, do_events, process_controllers, process_tick_always,
}
use linux_stage_asio.Stage.Sendback.Queues.{waiting, queue}

-- A tick leaves a queue alone or drops it, and it reports what it drops.
pub data IsSpared : List ServerSendbackContext → List ServerSendbackContext → ℕ → Type 0 where
  spared : {q : List ServerSendbackContext} {events : ℕ} → IsSpared q q events
  dropped : {q : List ServerSendbackContext} {events : ℕ} → events ≢ 0 → IsSpared q [] events

add_events :
    {q r : List ServerSendbackContext} {events : ℕ} (a b : ℕ)
    → IsSpared q r events
    → (events ≢ 0 → a + b ≢ 0)
    → IsSpared q r (a + b)
add_events a b spared h = spared
add_events a b (dropped n) h = dropped (h n)

filled : (a : Bool) (n : ℕ) → (a && not (n == 0)) ≡ true → n ≢ 0
filled true n e z = ground arith
filled false n e z = cc

do_events-IsSpared :
    (settings : ServerSendbackSettings) (now : ℕ) (c : ServerObjectController)
    → IsSpared c.cached_contexts
        (do_events settings now c).0.cached_contexts
        (do_events settings now c).1
unfolding do_events
do_events-IsSpared settings now c =
    let P : ServerObjectController × ℕ → Type 0 =
      λ r. IsSpared c.cached_contexts r.0.cached_contexts r.1 in
    let late : ServerObjectController × ℕ = (reset_sendback c, c.cached_queue_count) in
    elim settings.thoroughly_abandon_time
      as (λ o. P (elim o [
        | none ↦ (c, 0)
        | some time ↦ if expired c time now && not (c.cached_queue_count == 0) then late else (c, 0)
      ])) [
        | none ↦ spared
        | some time ↦
            if_elim P (expired c time now && not (c.cached_queue_count == 0)) late (c, 0)
              (λ e. dropped (filled (expired c time now) c.cached_queue_count e)) (λ e. spared)
      ]

process_controllers-IsSpared :
    (settings : ServerSendbackSettings) (now : ℕ) (table : List (Bytes × ServerObjectController))
    (j : Bytes)
    → IsSpared
        (waiting (lookup table j))
        (waiting (lookup (process_controllers settings now table).0 j))
        (process_controllers settings now table).1
unfolding process_controllers
process_controllers-IsSpared settings now [] j = spared
process_controllers-IsSpared settings now ((k, c) ∷ table) j =
    let (c', events) = do_events settings now c in
    let rest : List (Bytes × ServerObjectController) × ℕ = process_controllers settings now table in
    elim (Bool-cases (same_text k j)) [
      | inl same ↦
          rw same
            (add_events events rest.1 (do_events-IsSpared settings now c) (λ n z. n (omega arith)))
      | inr other ↦ rw other (
          add_events events rest.1 (process_controllers-IsSpared settings now table j)
            (λ n z. n (omega arith)))
    ]

pub process_tick_always-IsSpared :
    (s : ServerSendbackController) (now : ℕ) (j : Bytes)
    → IsSpared (queue s j) (queue (process_tick_always s now).0 j) (process_tick_always s now).1
unfolding process_tick_always
process_tick_always-IsSpared s now j =
    process_controllers-IsSpared s.settings now s.controller_table j
