-- ===== src/Net/Route.antt =====
-- `Transitroute` of stage/net/Message.h: a message that a server routes to another one, with the
-- platform's name, behind 10 packed bytes of header. `refused` is `false`, `~0` or the null packet;
-- `fault` is an `int` that overflows.
pub mod RoundTrip
pub mod Slices
use linux_stage_asio.Prelude.{
  ℕ, ◌+◌, ◌-◌, Bool, true, false, ◌&&◌, ◌||◌, not, Option, none, some, [], ◌∷◌, ◌++◌, ltb, ◌==◌,
  if◌then◌else◌, length, get_or, take, drop,
}
use linux_stage_asio.Prelude.Words.{u8, u32, Bytes, put16, put32, word16, word32}
use linux_stage_asio.Prelude.Outcome.{Outcome, done, refused, fault, ◌>>=◌}
use linux_stage_asio.Core.Segment.{Segment, unsafe_addr, is_negative, reset}
use linux_stage_asio.Net.Header.{encode}

pub record Route : Type 0 where
  pub command_id : ℕ
  pub sequence_no : ℕ
  pub link_type : ℕ
  pub server_no : ℕ
  pub platform : Bytes
  pub payload : Option Segment

-- sizeof(TransitrouteHeader)
abbrev pub route_header_size : ℕ
route_header_size = 10

-- Both constructor and destructor `Clear`.
abbrev pub cleared : Route
cleared = record {
  command_id = 0;
  sequence_no = 0;
  link_type = 0;
  server_no = 0;
  platform = [];
  payload = none;
}

-- The fields that `Load` assigns from the header in `memory`, with the platform's name.
abbrev pub header_fields : Route → Bytes → Bytes → Route
header_fields r memory platform = record {
  command_id = word16 (get_or memory 0 0) (get_or memory 1 0);
  sequence_no =
      word32 (get_or memory 2 0) (get_or memory 3 0) (get_or memory 4 0) (get_or memory 5 0);
  link_type = get_or memory 6 0;
  server_no = word16 (get_or memory 7 0) (get_or memory 8 0);
  platform = platform;
  payload = r.payload;
}

-- The payload behind `head` bytes of a packet of `len` bytes at `offset`.
abbrev pub attach : Route → Bytes → ℕ → ℕ → ℕ → Outcome (Bool × Route)
attach r packet offset len head = elim (reset (some packet) (offset + head) (len - head)) [
  | none ↦ fault
  | some payload ↦
      let loaded : Route = record {
        command_id = r.command_id;
        sequence_no = r.sequence_no;
        link_type = r.link_type;
        server_no = r.server_no;
        platform = r.platform;
        payload = some payload;
      } in
      done (true, loaded)
]

-- `Load(packet, offset, length)` behind its guards: the result and the object it leaves.
unfoldable pub load_packet : Route → Bytes → ℕ → ℕ → Outcome (Bool × Route)
load_packet r packet offset len =
    let memory = drop offset packet in
    let name_length = get_or memory 9 0 in
    if ltb len route_header_size
    then done (false, r)
    else if name_length == 0
    then attach (header_fields r memory []) packet offset len route_header_size
    else if ltb (len - route_header_size) name_length
    then done (false, header_fields r memory [])
    else attach (header_fields r memory (take name_length (drop route_header_size memory))) packet
        offset len (route_header_size + name_length)

-- `Load(segment)`
unfoldable pub load : Route → Option Segment → Outcome (Bool × Route)
load r none = done (false, r)
load r (some s) =
    if is_negative s.offset || is_negative s.length then done (false, r) else elim s.buffer [
      | none ↦ done (false, r)
      | some packet ↦ load_packet r packet s.offset s.length
    ]

-- A sum of lengths as an `int`.
abbrev as_int : ℕ → Outcome ℕ
as_int n = if is_negative n then fault else done n

unfoldable pub size_of : Route → Outcome ℕ
size_of r = elim r.payload [
  | none ↦ as_int (route_header_size + length r.platform)
  | some s ↦ if is_negative s.length || is_negative s.offset then refused else elim s.buffer [
    | none ↦
        if s.length == 0 && s.offset == 0
        then as_int (route_header_size + length r.platform)
        else refused
    | some _ ↦ as_int (route_header_size + length r.platform + s.length)
  ]
]

-- The header and the name, as `ToArray` writes them.
abbrev pub route_head : Route → Bytes
route_head r =
    put16 r.command_id
    ++ (put32 r.sequence_no
        ++ (u8 r.link_type ∷ (put16 r.server_no ++ (u8 (length r.platform) ∷ r.platform))))

-- `ToArray(packet, length)`: what it writes from `packet` on.
unfoldable pub to_array : Route → ℕ → Outcome Bytes
to_array r len = size_of r >>= λ (size : ℕ).
    if is_negative len || ltb len size
    then refused
    else if not (u8 (length r.platform) == length r.platform)
    then refused
    else elim r.payload [
      | none ↦ done (route_head r)
      | some s ↦ elim (unsafe_addr s) [
        | none ↦ if s.length == 0 then done (route_head r) else refused
        | some memory ↦ done (route_head r ++ take s.length memory)
      ]
    ]

-- `ToPacket(fk, cmd, ackNo, packetSize)`
unfoldable pub to_packet : Route → ℕ → ℕ → ℕ → Outcome Bytes
to_packet r fk cmd ack_no = size_of r >>= λ (size : ℕ).
    if u32 (size + 11) == 0 || is_negative (u32 (size + 11))
    then refused
    else to_array r size >>= λ (body : Bytes). done (
        encode (record { fk = fk; len = size; cmd = cmd; compressed = false; seq = ack_no })
        ++ body)
