-- ===== src/Net/Bulk.antt =====
-- `TBulkManyMessage` of stage/net/Message.h at `BulkManyMessage`, whose members are 16-bit words: one
-- message for several members. A pointer is the memory behind it, or `none` for NULL; `fault` is a
-- size that no 32-bit word holds, or a `memcpy` from NULL. `this` is never null.
pub mod RoundTrip
use linux_stage_asio.Prelude.{
  ℕ, ◌+◌, ◌-◌, ◌*◌, ◌^◌, Bool, true, false, not, Option, none, some, [], ◌∷◌, ◌++◌, ltb, leb, ◌==◌,
  if◌then◌else◌, length, get_or, take, drop,
}
use linux_stage_asio.Prelude.Words.{u8, Bytes, put16, word16}
use linux_stage_asio.Prelude.Outcome.{Outcome, done, refused, fault}
use linux_stage_asio.Core.Segment.{Segment, unsafe_addr}
use linux_stage_asio.Net.Message.{Message}
use linux_stage_asio.Net.Header.{encode}

pub record Bulk : Type 0 where
  pub kf : ℕ
  pub command_id : ℕ
  pub sequence_no : ℕ
  pub member_type : ℕ
  pub member : Option Bytes
  pub member_count : ℕ
  pub payload_ptr : Option Bytes
  pub payload_size : ℕ

-- `Clear`
abbrev pub cleared : Bulk
cleared = record {
  kf = 0;
  command_id = 0;
  sequence_no = 0;
  member_type = 0;
  member = none;
  member_count = 0;
  payload_ptr = none;
  payload_size = 0;
}

-- `LoadFrom(sz, counts)`: the result and the object it leaves, which `Clear` empties first.
unfoldable pub load_memory : Option Bytes → ℕ → Bool × Bulk
load_memory none counts = (false, cleared)
load_memory (some memory) counts =
    let count = word16 (get_or memory 1 0) (get_or memory 2 0) in
    let loaded : Bulk = record {
      kf = 0;
      command_id = 0;
      sequence_no = 0;
      member_type = get_or memory 0 0;
      member = some (drop 3 memory);
      member_count = count;
      payload_ptr = some (drop (3 + 2 * count) memory);
      payload_size = counts - (3 + 2 * count);
    } in
    if counts == 0
    then (false, cleared)
    else if ltb counts 1
    then (false, cleared)
    else if ltb counts 3
    then (false, cleared)
    else if count == 0
    then (true, cleared)
    else if ltb counts (3 + 2 * count)
    then (false, cleared)
    else (true, loaded)

-- `LoadFrom(payload)`: without a payload the object keeps what it held.
unfoldable pub load_segment : Bulk → Option Segment → Bool × Bulk
load_segment old none = (false, old)
load_segment old (some s) = load_memory (unsafe_addr s) s.length

-- `LoadFrom(message)`
unfoldable pub load : Bulk → Message → Bool × Bulk
load old m =
    let (ok, b) = load_segment old m.payload in
    let loaded : Bulk = record {
      kf = b.kf;
      command_id = m.command_id;
      sequence_no = m.sequence_no;
      member_type = b.member_type;
      member = b.member;
      member_count = b.member_count;
      payload_ptr = b.payload_ptr;
      payload_size = b.payload_size;
    } in
    if ok then (true, loaded) else (false, b)

-- What a pointer stands for when `size` bytes are read from it.
abbrev pub memory_of : Option Bytes → ℕ → Bytes
memory_of none size = []
memory_of (some memory) size = take size memory

-- What follows the packet's header.
abbrev pub bulk_body : Bulk → Bytes
bulk_body b =
    u8 b.member_type
    ∷ (put16 b.member_count
        ++ (memory_of b.member (2 * b.member_count) ++ memory_of b.payload_ptr b.payload_size))

-- `ToPacket(fk, cmd_id, ack_no, member_type, member_ptr, member_len, payload, payload_size, …)` on
-- the object's own fields, as `ToPacket(size)` calls it.
unfoldable pub to_packet : Bulk → Outcome Bytes
to_packet b =
    let missing : Option Bytes → ℕ → Bool =
      λ p n. elim p [ none ↦ not (n == 0) | some _ ↦ false ] in
    let size = 11 + 1 + 2 + 2 * b.member_count + b.payload_size in
    if missing b.member b.member_count
    then refused
    else if missing b.payload_ptr b.payload_size
    then refused
    else if leb (2 ^ 32) (size + 1)
    then fault
    else done (
        encode (record {
          fk = b.kf;
          len = size - 11;
          cmd = b.command_id;
          compressed = false;
          seq = b.sequence_no;
        })
        ++ bulk_body b)
