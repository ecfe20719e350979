-- ===== src/Net/Bulk/RoundTrip.antt =====
-- A bulk message that is sent and loaded again.
use linux_stage_asio.Prelude.{
  ℕ, suc, ◌+◌, ◌*◌, ◌/◌, ◌^◌, ◌<◌, ◌≡◌, ◌≢◌, refl, ap, subst, true, false, none, some, [], ◌∷◌,
  ◌++◌, arith, length, drop, length-append, take-all, drop-append_length, take-append_le,
}
use linux_stage_asio.Prelude.Words.{u8, Bytes, put16, word16}
use linux_stage_asio.Prelude.Outcome.{done}
use linux_stage_asio.Core.Segment.{unsafe_addr}
use linux_stage_asio.Net.Message.{Message}
use linux_stage_asio.Net.Header.{Header, encode}
use linux_stage_asio.Net.Bulk.{
  Bulk, bulk_body, load_memory, load_segment, load, to_packet, memory_of,
}

-- The fields fit their widths, and the pointers reach as many bytes as the counts say.
pub record IsBulk (b : Bulk) : Type 0 where
  pub type_fits : b.member_type < 2 ^ 8
  pub count_fits : b.member_count < 2 ^ 16
  pub members : Bytes
  pub body : Bytes
  pub member_is : b.member ≡ some members
  pub payload_is : b.payload_ptr ≡ some body
  pub members_there : length members ≡ 2 * b.member_count
  pub body_there : length body ≡ b.payload_size
  pub size_fits : 3 + 2 * b.member_count + b.payload_size < 2 ^ 31

-- All that a receiver is told: the members as bytes, and the payload.
abbrev pub fields : Bulk → ℕ × ℕ × ℕ × ℕ × Bytes × Bytes
fields b = (
  b.command_id,
  b.sequence_no,
  b.member_type,
  b.member_count,
  memory_of b.member (2 * b.member_count),
  memory_of b.payload_ptr b.payload_size,
)

abbrev pub received : Bulk → Message
received b = record {
  command_id = b.command_id;
  sequence_no = b.sequence_no;
  payload = some (record {
    buffer = some (bulk_body b);
    offset = 0;
    length = 3 + 2 * b.member_count + b.payload_size;
  });
}

bulk_body_is :
    (b : Bulk) (v : IsBulk b)
    → bulk_body b ≡ u8 b.member_type ∷ (put16 b.member_count ++ (v.members ++ v.body))
bulk_body_is b v =
    let ms = take-all (2 * b.member_count) v.members (omega (arith, v.members_there)) in
    let bs = take-all b.payload_size v.body (omega (arith, v.body_there)) in
    ground (arith, v.member_is, v.payload_is, ms, bs)

drop_head : (a b c : ℕ) (xs : Bytes) (n : ℕ) → drop (3 + n) (a ∷ b ∷ c ∷ xs) ≡ drop n xs
drop_head a b c xs n =
    let three : 3 + n ≡ suc (suc (suc n)) = omega arith in ap (λ k. drop k (a ∷ b ∷ c ∷ xs)) three

load_memory_body :
    (members body : Bytes) (t c d n size : ℕ)
    → word16 c d ≡ n
    → 0 < n
    → length members ≡ 2 * n
    → load_memory (some (t ∷ c ∷ d ∷ (members ++ body))) (3 + 2 * n + size) ≡ (
      true,
      record {
        kf = 0;
        command_id = 0;
        sequence_no = 0;
        member_type = t;
        member = some (members ++ body);
        member_count = n;
        payload_ptr = some body;
        payload_size = size;
      },
    )
unfolding load_memory
load_memory_body members body t c d n size count pos there =
    let tail = drop-append_length members body in
    let start : drop (2 * n) (members ++ body) ≡ body =
      subst (λ k. drop k (members ++ body) ≡ body) there tail in
    ground (arith, drop_head t c d (members ++ body) (2 * n), start)

load-received :
    (old b : Bulk) (v : IsBulk b)
    → 0 < b.member_count
    → (loaded : Bulk) × (load old (received b) ≡ (true, loaded)) × (fields loaded ≡ fields b)
unfolding load load_segment unsafe_addr
load-received old b v some_member =
    let count : word16 (u8 b.member_count) (u8 (b.member_count / 2 ^ 8)) ≡ b.member_count =
      omega (arith, v.count_fits) in
    let start =
      load_memory_body v.members v.body (u8 b.member_type) _ _ b.member_count b.payload_size count
        some_member v.members_there in
    let members =
      take-append_le (2 * b.member_count) v.members v.body (omega (arith, v.members_there)) in
    let loaded : Bulk = record {
      kf = 0;
      command_id = b.command_id;
      sequence_no = b.sequence_no;
      member_type = u8 b.member_type;
      member = some (v.members ++ v.body);
      member_count = b.member_count;
      payload_ptr = some v.body;
      payload_size = b.payload_size;
    } in
    (
      loaded,
      rw (bulk_body_is b v) (ground (arith, start, v.size_fits)),
      ground (arith, members, v.member_is, v.payload_is, v.type_fits),
    )

-- A bulk message with a member, whose fields fit and whose pointers reach as far as the counts say,
-- is sent as a header that gives the size of the body behind it, and `LoadFrom` of that body
-- succeeds, whatever the object held before, with the command, the sequence number, the type,
-- the members and the payload that were sent.
pub load-to_packet :
    (old b : Bulk) (v : IsBulk b)
    → 0 < b.member_count
    → (header : Header) × (loaded : Bulk) × (to_packet b ≡ done (encode header ++ bulk_body b))
      × (header.len ≡ length (bulk_body b))
      × (load old (received b) ≡ (true, loaded))
      × (fields loaded ≡ fields b)
unfolding to_packet
load-to_packet old b v some_member =
    let (loaded, loads, same) = load-received old b v some_member in
    (
      record {
        fk = b.kf;
        len = 3 + 2 * b.member_count + b.payload_size;
        cmd = b.command_id;
        compressed = false;
        seq = b.sequence_no;
      },
      loaded,
      ground (arith, v.member_is, v.payload_is, v.size_fits),
      omega (
        arith,
        ap length (bulk_body_is b v),
        length-append v.members v.body,
        v.members_there,
        v.body_there,
      ),
      loads,
      same,
    )

no_members_body :
    (b : Bulk) (body : Bytes)
    → b.member_count ≡ 0
    → b.payload_ptr ≡ some body
    → length body ≡ b.payload_size
    → bulk_body b ≡ u8 b.member_type ∷ 0 ∷ 0 ∷ body
no_members_body b body none_there payload_is body_there =
    ground (arith, none_there, payload_is, take-all b.payload_size body (omega (arith, body_there)))

-- A bulk message that has no members but a payload that is not empty is sent all the same, with the
-- type and the payload behind a header that gives their size. `LoadFrom` of what was sent succeeds,
-- whatever the object held before, with the command and the sequence number, but with neither the
-- type nor the payload: what is loaded is not what was sent.
pub load-to_packet_no_members :
    (old b : Bulk) (body : Bytes)
    → b.member_count ≡ 0
    → b.payload_ptr ≡ some body
    → length body ≡ b.payload_size
    → 0 < b.payload_size
    → 3 + b.payload_size < 2 ^ 31
    → (header : Header) × (loaded : Bulk) × (to_packet b
        ≡ done (encode header ++ u8 b.member_type ∷ 0 ∷ 0 ∷ body))
      × (header.len ≡ 3 + length body)
      × (load old (received b) ≡ (true, loaded))
      × (fields loaded ≡ (b.command_id, b.sequence_no, 0, 0, [], []))
      × (fields loaded ≢ fields b)
unfolding to_packet load load_segment load_memory unsafe_addr
load-to_packet_no_members old b body none_there payload_is body_there some_payload fits =
    let loaded : Bulk = record {
      kf = 0;
      command_id = b.command_id;
      sequence_no = b.sequence_no;
      member_type = 0;
      member = none;
      member_count = 0;
      payload_ptr = none;
      payload_size = 0;
    } in
    let sent = no_members_body b body none_there payload_is body_there in
    let whole = take-all b.payload_size body (omega (arith, body_there)) in
    (
      record {
        fk = b.kf;
        len = 3 + b.payload_size;
        cmd = b.command_id;
        compressed = false;
        seq = b.sequence_no;
      },
      loaded,
      rw sent (ground (arith, none_there, payload_is, fits)),
      omega (arith, body_there),
      rw sent (ground (arith, none_there, fits)),
      refl,
      λ same. ground (arith, ap (λ t. length t.5) same, payload_is, whole, body_there),
    )
