-- ===== src/Stage/Sendback.antt =====
-- stage/stage/ServerSendbackController.cpp: the packets that are kept for internal servers that are
-- away. The clock's reading is an argument, `this` is never NULL, an allocation never fails, and a
-- queue holds fewer than 2^31 packets. A 64-bit number stands as its pattern.
pub mod Keys
pub mod Tables
pub mod Queues
pub mod Names
pub mod Ticks
pub mod Runs
pub mod Order
pub mod Limits
pub mod Acts
use linux_stage_asio.Prelude.{
  ℕ, zero, suc, ◌+◌, ◌-◌, ◌*◌, ◌/◌, ◌%◌, ◌^◌, Bool, true, false, ◌&&◌, ◌||◌, not, Option, none,
  some, List, [], ◌∷◌, ◌++◌, ltb, leb, ◌==◌, if◌then◌else◌, length,
}
use linux_stage_asio.Prelude.Words.{u32, Bytes}
use linux_stage_asio.Prelude.Outcome.{Outcome, done, fault, ◌>>=◌}
use linux_stage_asio.Core.Segment.{is_negative}

-- `%d` of a number that is not negative
unfoldable pub decimal : ℕ → ℕ → Bytes
decimal zero n = []
decimal (suc digits) n =
    let front = decimal digits (n / 10) in
    if ltb n 10 then (48 + n) ∷ [] else front ++ (48 + n % 10) ∷ []

-- `%d` of the 32-bit pattern of an `int`: ten digits suffice.
unfoldable pub print_int : ℕ → Bytes
unfolding decimal
print_int n = if is_negative n then b'-' ∷ decimal 10 (2 ^ 32 - n) else decimal 10 n

-- `%s`: the characters up to the first NUL
unfoldable pub c_text : Bytes → Bytes
c_text [] = []
c_text (c ∷ text) = let rest = c_text text in if c == 0 then [] else c ∷ rest

abbrev pub key_text : Bytes → ℕ → ℕ → Bytes
key_text platform server_no link_type =
    c_text platform ++ (b'.' ∷ (print_int server_no ++ (b'.' ∷ print_int link_type)))

-- `GetControllerKey`: the text and its NUL have to fit in 1000 bytes.
unfoldable pub get_controller_key : Bytes → ℕ → ℕ → Outcome Bytes
unfolding c_text print_int
get_controller_key platform server_no link_type =
    if ltb (length (key_text platform server_no link_type)) 1000
    then done (key_text platform server_no link_type)
    else fault

pub record ServerSendbackSettings : Type 0 where
  pub max_send_queue_size : ℕ
  pub max_send_buffer_size : ℕ
  pub thoroughly_abandon_time : Option ℕ

-- The setters: a negative number becomes 0, or `~0` for the time, which is `none`.
abbrev pub set_max_send_queue_size : ServerSendbackSettings → ℕ → ServerSendbackSettings
set_max_send_queue_size r value = record r {
  max_send_queue_size = if is_negative value then 0 else value;
}

abbrev pub set_max_send_buffer_size : ServerSendbackSettings → ℕ → ServerSendbackSettings
set_max_send_buffer_size r value = record r {
  max_send_buffer_size = if leb (2 ^ 63) value then 0 else value;
}

abbrev pub set_thoroughly_abandon_time : ServerSendbackSettings → ℕ → ServerSendbackSettings
set_thoroughly_abandon_time r value = record r {
  thoroughly_abandon_time = if is_negative value then none else some value;
}

abbrev pub cleared_settings : ServerSendbackSettings
cleared_settings = record {
  max_send_queue_size = 0;
  max_send_buffer_size = 0;
  thoroughly_abandon_time = none;
}

pub record ServerSendbackContext : Type 0 where
  pub packet : Bytes
  pub packet_size : ℕ

pub record ServerObjectController : Type 0 where
  pub platform : Bytes
  pub server_no : ℕ
  pub link_type : ℕ
  pub cached_aborting_time : ℕ
  pub cached_packet_size : ℕ
  pub cached_queue_count : ℕ
  pub cached_contexts : List ServerSendbackContext

pub record ServerSendbackController : Type 0 where
  pub settings : ServerSendbackSettings
  pub disposed : Bool
  pub controller_table : List (Bytes × ServerObjectController)

-- The constructor.
abbrev pub fresh : ServerSendbackController
fresh = record {
  settings =
      set_max_send_buffer_size
        (set_max_send_queue_size (set_thoroughly_abandon_time cleared_settings 60000) 10000)
        (10 * 1024 * 1024);
  disposed = false;
  controller_table = [];
}

abbrev pub same_text : Bytes → Bytes → Bool
same_text [] [] = true
same_text [] (y ∷ ys) = false
same_text (x ∷ xs) [] = false
same_text (x ∷ xs) (y ∷ ys) = x == y && same_text xs ys

-- The hash map.
abbrev pub lookup : List (Bytes × ServerObjectController) → Bytes → Option ServerObjectController
lookup [] key = none
lookup ((k, c) ∷ table) key = if same_text k key then some c else lookup table key

abbrev pub store :
    List (Bytes × ServerObjectController)
    → Bytes
    → ServerObjectController
    → List (Bytes × ServerObjectController)
store [] key c = (key, c) ∷ []
store ((k, d) ∷ table) key c =
    let rest = store table key c in if same_text k key then (k, c) ∷ table else (k, d) ∷ rest

abbrev pub erase :
    List (Bytes × ServerObjectController) → Bytes → List (Bytes × ServerObjectController)
erase [] key = []
erase ((k, d) ∷ table) key =
    let rest = erase table key in if same_text k key then rest else (k, d) ∷ rest

abbrev pub new_controller : Bytes → ℕ → ℕ → ℕ → ServerObjectController
new_controller platform server_no link_type now = record {
  platform = platform;
  server_no = server_no;
  link_type = link_type;
  cached_aborting_time = now;
  cached_packet_size = 0;
  cached_queue_count = 0;
  cached_contexts = [];
}

-- What `RawAddSendback` returns: 0, 1, 2, -1, -3, -5 and -8. The other codes are for NULL pointers.
pub data AddCode : Type 0 where
  added : AddCode
  queue_is_full : AddCode
  buffer_is_full : AddCode
  no_packet : AddCode
  was_disposed : AddCode
  keeps_nothing : AddCode
  abandoned : AddCode

-- `a > b` of a 64-bit pattern and a limit that is not negative.
abbrev pub exceeds : ℕ → ℕ → Bool
exceeds a b = if leb (2 ^ 63) a then false else ltb b a

-- `a < b` of 64-bit patterns of signed numbers.
abbrev pub signed_less : ℕ → ℕ → Bool
signed_less a b = ltb ((a + 2 ^ 63) % 2 ^ 64) ((b + 2 ^ 63) % 2 ^ 64)

-- It is too long since the server went away, in signed numbers.
abbrev pub too_late : ServerObjectController → ℕ → ℕ → Bool
too_late c time now =
    let passed = (now + 2 ^ 64 - c.cached_aborting_time) % 2 ^ 64 in
    if c.cached_aborting_time == 0
    then false
    else signed_less now c.cached_aborting_time || (ltb passed (2 ^ 63) && leb time passed)

-- `context.packetSize = packetSize`, from `size_t` to `int`
abbrev pub new_context : Bytes → ℕ → ServerSendbackContext
new_context packet size = record { packet = packet; packet_size = u32 size }

-- Behind the look-up of the controller.
unfoldable pub enqueue :
    ServerSendbackSettings
    → Option ℕ
    → ServerObjectController
    → Bytes
    → ℕ
    → ℕ
    → ServerObjectController × AddCode
enqueue settings time c packet size now =
    let cached_packet_size = (c.cached_packet_size + size) % 2 ^ 64 in
    let late : Bool = elim time [ none ↦ false | some limit ↦ too_late c limit now ] in
    if late
    then (c, abandoned)
    else if ltb settings.max_send_queue_size (c.cached_queue_count + 1)
    then (c, queue_is_full)
    else if exceeds cached_packet_size settings.max_send_buffer_size
    then (c, buffer_is_full)
    else (
      record c {
        cached_packet_size = cached_packet_size;
        cached_queue_count = c.cached_queue_count + 1;
        cached_contexts = c.cached_contexts ++ new_context packet size ∷ [];
      },
      added,
    )

-- What the look-up finds, or a new controller.
abbrev pub found_or :
    ServerObjectController → Option ServerObjectController → ServerObjectController
found_or new none = new
found_or new (some c) = c

-- `RawAddSendback` behind the key
unfoldable pub add_under :
    ServerSendbackController
    → Bytes
    → ServerObjectController
    → Bytes
    → ℕ
    → ℕ
    → ServerSendbackController × AddCode
unfolding enqueue
add_under s key new packet size now =
    let (c, code) =
      enqueue s.settings s.settings.thoroughly_abandon_time
        (found_or new (lookup s.controller_table key)) packet size now in
    let stored : ServerSendbackController = record s {
      controller_table = store s.controller_table key c;
    } in
    if s.disposed then (s, was_disposed) else elim s.settings.thoroughly_abandon_time [
      | none ↦ (stored, code)
      | some time ↦ if time == 0 then (s, keeps_nothing) else (stored, code)
    ]

-- `RawAddSendback`; `none` is a NULL packet.
unfoldable pub raw_add_sendback :
    ServerSendbackController
    → Bytes
    → ℕ
    → ℕ
    → Option Bytes
    → ℕ
    → ℕ
    → Outcome (ServerSendbackController × AddCode)
unfolding get_controller_key add_under
raw_add_sendback s platform server_no link_type packet size now = elim packet [
  | none ↦ done (s, no_packet)
  | some bytes ↦
      if size == 0
      then done (s, no_packet)
      else (get_controller_key platform server_no link_type >>= λ key.
          done (add_under s key (new_controller platform server_no link_type now) bytes size now))
]

-- `AddSendback`: whether it was added, and whether `UnderloadEvent` is raised.
unfoldable pub add_sendback :
    ServerSendbackController
    → Bytes
    → ℕ
    → ℕ
    → Option Bytes
    → ℕ
    → ℕ
    → Outcome (ServerSendbackController × Bool × Bool)
unfolding raw_add_sendback
add_sendback s platform server_no link_type packet size now =
    raw_add_sendback s platform server_no link_type packet size now
    >>= λ (r : ServerSendbackController × AddCode). done (elim r.1 [
      | added ↦ (r.0, true, false)
      | queue_is_full ↦ (r.0, false, not r.0.disposed)
      | buffer_is_full ↦ (r.0, false, not r.0.disposed)
      | _ ↦ (r.0, false, false)
    ])

-- `ResetSendback`
abbrev pub reset_sendback : ServerObjectController → ServerObjectController
reset_sendback c = record c { cached_packet_size = 0; cached_queue_count = 0; cached_contexts = [] }

-- The test of `DoEvents`, where a time of abortion that is now counts as well.
abbrev pub expired : ServerObjectController → ℕ → ℕ → Bool
expired c time now =
    if c.cached_aborting_time == 0
    then false
    else leb (2 ^ 63) c.cached_aborting_time
      || leb now c.cached_aborting_time
      || leb time (now - c.cached_aborting_time)

-- `DoEvents` of a controller: the controller and the number of packets that are dropped.
unfoldable pub do_events :
    ServerSendbackSettings → ℕ → ServerObjectController → ServerObjectController × ℕ
do_events settings now c = elim settings.thoroughly_abandon_time [
  | none ↦ (c, 0)
  | some time ↦
      if expired c time now && not (c.cached_queue_count == 0)
      then (reset_sendback c, c.cached_queue_count)
      else (c, 0)
]

-- `ProcessTickAlways`
unfoldable pub process_controllers :
    ServerSendbackSettings
    → ℕ
    → List (Bytes × ServerObjectController)
    → List (Bytes × ServerObjectController) × ℕ
unfolding do_events
process_controllers settings now [] = ([], 0)
process_controllers settings now ((k, c) ∷ table) =
    let (c', events) = do_events settings now c in
    let (table', later) = process_controllers settings now table in
    ((k, c') ∷ table', events + later)

unfoldable pub process_tick_always : ServerSendbackController → ℕ → ServerSendbackController × ℕ
unfolding process_controllers
process_tick_always s now =
    let (table, events) = process_controllers s.settings now s.controller_table in
    (record s { controller_table = table }, events)

-- `TickEvent` of the timer that `Run` starts.
unfoldable pub tick_event : ServerSendbackController → ℕ → ServerSendbackController
unfolding process_tick_always
tick_event s now = if s.disposed then s else (process_tick_always s now).0

-- `Clear`: the number of packets that are dropped.
unfoldable pub clear :
    ServerSendbackController → Bytes → ℕ → ℕ → Outcome (ServerSendbackController × ℕ)
unfolding get_controller_key
clear s platform server_no link_type = get_controller_key platform server_no link_type >>= λ key.
    elim (lookup s.controller_table key) [
      | none ↦ done (s, 0)
      | some c ↦
          done (record s { controller_table = erase s.controller_table key }, c.cached_queue_count)
    ]

-- What `On` does: the state, what it returns, and the packets that are handed to `sendback`.
pub record Handed : Type 0 where
  pub controller : ServerSendbackController
  pub events : ℕ
  pub handed : List ServerSendbackContext

abbrev pub count_sent : (ServerSendbackContext → Bool) → List ServerSendbackContext → ℕ
count_sent sendback [] = 0
count_sent sendback (c ∷ cs) = (if sendback c then 1 else 0) + count_sent sendback cs

-- `On(kOnline)`; `none` is an empty function.
unfoldable pub on_online :
    ServerSendbackController
    → Bytes
    → ℕ
    → ℕ
    → Option (ServerSendbackContext → Bool)
    → Outcome Handed
unfolding clear get_controller_key
on_online s platform server_no link_type sendback = elim sendback [
  | none ↦ clear s platform server_no link_type >>= λ (r : ServerSendbackController × ℕ).
      done (record { controller = r.0; events = r.1; handed = [] })
  | some send ↦ get_controller_key platform server_no link_type >>= λ key.
      elim (lookup s.controller_table key) [
        | none ↦ done (record { controller = s; events = 0; handed = [] })
        | some c ↦ done (record {
          controller = record s { controller_table = erase s.controller_table key };
          events = count_sent send c.cached_contexts;
          handed = c.cached_contexts;
        })
      ]
]

-- `On(kOffline)`
unfoldable pub on_offline :
    ServerSendbackController → Bytes → ℕ → ℕ → ℕ → Outcome (ServerSendbackController × ℕ)
unfolding get_controller_key
on_offline s platform server_no link_type now =
    get_controller_key platform server_no link_type >>= λ key.
    let found : ServerObjectController =
      found_or (new_controller platform server_no link_type now) (lookup s.controller_table key) in
    done (
      record s {
        controller_table =
            store s.controller_table key (record found { cached_aborting_time = now });
      },
      1,
    )

unfoldable pub dispose : ServerSendbackController → ServerSendbackController
dispose s = record s { disposed = true; controller_table = [] }
