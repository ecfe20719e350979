-- ===== src/Tests/Sendbacks.antt =====
-- Packets that are kept for a server that is away.
use linux_stage_asio.Prelude.{
  ◌⊎◌, true, ℕ, ◌-◌, ◌^◌, ◌≡◌, refl, Bool, true, false, some, List, [], ◌∷◌, arith,
}
use linux_stage_asio.Prelude.Words.{Bytes}
use linux_stage_asio.Prelude.Outcome.{done, Ensures}
use linux_stage_asio.Stage.Sendback.{
  ServerSendbackContext, ServerSendbackController, fresh, get_controller_key, c_text, print_int,
  decimal, raw_add_sendback, enqueue, add_under, on_online, on_offline, tick_event,
  process_tick_always, process_controllers, do_events,
}
use linux_stage_asio.Stage.Sendback.Keys.{get_controller_key-inj}
use linux_stage_asio.Stage.Sendback.Runs.{
  Journal, empty_journal, accepting, handing, Run, starts, adds, comes,
}
use linux_stage_asio.Stage.Sendback.Order.{Run-ordered}
use linux_stage_asio.Stage.Sendback.Limits.{AllWithin}
use linux_stage_asio.Stage.Sendback.Acts.{Act, add_packet, offline, tick, acts, acts-AllWithin}
use mathlib.Core.List.{Sublist}

abbrev the_platform : Bytes
the_platform = 120 ∷ 121 ∷ []

-- Its server 7, link type 2
abbrev the_key : Bytes
the_key = 120 ∷ 121 ∷ 46 ∷ 55 ∷ 46 ∷ 50 ∷ []

the_key_named : get_controller_key the_platform 7 2 ≡ done the_key
unfolding get_controller_key c_text print_int decimal
the_key_named = refl

-- A negative server number.
minus_one : print_int (2 ^ 32 - 1) ≡ 45 ∷ 49 ∷ []
unfolding print_int decimal
minus_one = refl

get_controller_key-inj_example :
    (the_platform ≡ the_platform) × (◌≡◌ {A = ℕ} 7 7) × (◌≡◌ {A = ℕ} 2 2)
get_controller_key-inj_example =
    get_controller_key-inj the_platform the_platform 7 7 2 2 the_key
      (omega arith, (omega arith, tt)) (omega arith, (omega arith, tt)) (omega arith, omega arith)
      (omega arith, omega arith) the_key_named the_key_named

-- The controller that keeps the packets of `contexts`.
abbrev keeping : ℕ → ℕ → ℕ → List ServerSendbackContext → ServerSendbackController
keeping aborted size count contexts = record fresh {
  controller_table =
      (
        the_key,
        record {
          platform = the_platform;
          server_no = 7;
          link_type = 2;
          cached_aborting_time = aborted;
          cached_packet_size = size;
          cached_queue_count = count;
          cached_contexts = contexts;
        },
      )
      ∷ [];
}

abbrev first_packet : ServerSendbackContext
first_packet = record { packet = 1 ∷ 2 ∷ []; packet_size = 2 }

abbrev second_packet : ServerSendbackContext
second_packet = record { packet = 3 ∷ []; packet_size = 1 }

abbrev everything : ServerSendbackContext → Bool
everything _ = true

-- Two packets are kept, the server comes back, and a third packet is kept.
abbrev story : Journal
story =
    accepting
      (handing (accepting (accepting empty_journal true (1 ∷ 2 ∷ []) 2) true (3 ∷ []) 1) true
        (some everything) (first_packet ∷ second_packet ∷ []))
      true (3 ∷ []) 1

story-Run : Run the_key (keeping 900 1 1 (second_packet ∷ [])) story
unfolding raw_add_sendback add_under enqueue on_online
story-Run =
    adds the_platform 7 2 (3 ∷ []) 1 900
      (comes the_platform 7 2 (some everything)
        (adds {s' = keeping 500 3 2 (first_packet ∷ second_packet ∷ [])} the_platform 7 2 (3 ∷ []) 1
          600
          (adds {s' = keeping 500 2 1 (first_packet ∷ [])} the_platform 7 2 (1 ∷ 2 ∷ []) 2 500
            (starts {s = fresh} refl) the_key_named refl)
          the_key_named refl)
        the_key_named refl)
      the_key_named refl

Run-ordered_example :
    Sublist
      (first_packet ∷ second_packet ∷ second_packet ∷ [])
      (first_packet ∷ second_packet ∷ second_packet ∷ [])
    × ((◌≡◌ {A = Bool} false true)
        ⊎ (first_packet ∷ second_packet ∷ second_packet ∷ []
            ≡ first_packet ∷ second_packet ∷ second_packet ∷ []))
Run-ordered_example = Run-ordered the_key (keeping 900 1 1 (second_packet ∷ [])) story story-Run

abbrev some_acts : List Act
some_acts =
    add_packet the_platform 7 2 (1 ∷ 2 ∷ []) 2 500
    ∷ (offline the_platform 7 2 700
        ∷ (tick 900 ∷ (add_packet the_platform 7 2 (3 ∷ []) 1 950 ∷ [])))

acts-AllWithin_example :
    Ensures
      (λ (s : ServerSendbackController).
        s.settings ≡ fresh.settings × AllWithin fresh.settings s.controller_table)
      (acts fresh some_acts)
acts-AllWithin_example =
    acts-AllWithin fresh some_acts (omega arith) tt
      ((omega arith, omega arith), (omega arith, (tt, ((omega arith, omega arith), tt))))

-- What the acts end in.
some_acts_run : acts fresh some_acts ≡ done (keeping 700 3 2 (first_packet ∷ second_packet ∷ []))
unfolding raw_add_sendback add_under enqueue on_offline process_tick_always process_controllers
    do_events get_controller_key c_text print_int decimal
some_acts_run = refl

-- The packets of a server that is away for a minute are dropped.
away_too_long : tick_event (keeping 700 2 1 (first_packet ∷ [])) 60700 ≡ keeping 700 0 0 []
unfolding tick_event process_tick_always process_controllers do_events
away_too_long = refl
