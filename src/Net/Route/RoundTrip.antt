-- ===== src/Net/Route/RoundTrip.antt =====
-- What `ToArray` writes, `Load` reads back.
use linux_stage_asio.Prelude.{
  ℕ, ◌+◌, ◌^◌, ◌<◌, ◌≡◌, refl, ◌⊎◌, true, none, some, [], ◌++◌, append-nil, arith, length,
  length-append, take-all, take-append_length, drop-append_length, length-zero,
}
use linux_stage_asio.Prelude.Words.{u8, Bytes}
use linux_stage_asio.Prelude.Outcome.{done}
use linux_stage_asio.Core.Segment.{unsafe_addr, reset, contents}
use linux_stage_asio.Net.Route.{
  Route, route_head, size_of, to_array, load, load_packet, header_fields, attach,
}

-- Each field fits its width, and the payload, when there is one, is a whole buffer.
pub record IsRoute (r : Route) : Type 0 where
  pub command_fits : r.command_id < 2 ^ 16
  pub sequence_fits : r.sequence_no < 2 ^ 32
  pub link_fits : r.link_type < 2 ^ 8
  pub server_fits : r.server_no < 2 ^ 16
  pub name_fits : length r.platform < 2 ^ 8
  pub body : Bytes
  pub payload_is :
      (r.payload ≡ some (record { buffer = some body; offset = 0; length = length body }))
      ⊎ ((r.payload ≡ none) × (body ≡ []))
  pub body_fits : 10 + length r.platform + length body < 2 ^ 31

-- All the fields, with the bytes that the payload stands for.
abbrev pub fields : Route → ℕ × ℕ × ℕ × ℕ × Bytes × Bytes
fields r = (
  r.command_id,
  r.sequence_no,
  r.link_type,
  r.server_no,
  r.platform,
  elim r.payload [ none ↦ [] | some s ↦ contents s ],
)

to_array_written :
    (r : Route) (v : IsRoute r)
    → to_array r (10 + length r.platform + length v.body) ≡ done (route_head r ++ v.body)
unfolding to_array size_of unsafe_addr
to_array_written r v = ground (
  arith,
  v.payload_is,
  v.body_fits,
  v.name_fits,
  take-all (length v.body) v.body (omega arith),
  append-nil (route_head r),
  length-zero v.body,
)

-- The route that `Load` makes of what was written.
abbrev pub reloaded : Route → Bytes → Route
reloaded r body = record {
  command_id = r.command_id;
  sequence_no = r.sequence_no;
  link_type = r.link_type;
  server_no = r.server_no;
  platform = r.platform;
  payload = reset (some (route_head r ++ body)) (10 + length r.platform) (length body);
}

header_fields_written :
    (old r : Route) (body platform : Bytes)
    → IsRoute r
    → header_fields old (route_head r ++ body) platform ≡ record {
      command_id = r.command_id;
      sequence_no = r.sequence_no;
      link_type = r.link_type;
      server_no = r.server_no;
      platform = platform;
      payload = old.payload;
    }
header_fields_written old r body platform v =
    ground (arith, v.command_fits, v.sequence_fits, v.link_fits, v.server_fits)

attach_written :
    (r old : Route) (platform : Bytes) (v : IsRoute r)
    → r.platform ≡ platform
    → attach
        (record {
          command_id = r.command_id;
          sequence_no = r.sequence_no;
          link_type = r.link_type;
          server_no = r.server_no;
          platform = platform;
          payload = old.payload;
        })
        (route_head r ++ v.body)
        0
        (10 + length r.platform + length v.body)
        (10 + length r.platform)
      ≡ done (true, reloaded r v.body)
unfolding reset
attach_written r old platform v is = ground (arith, v.body_fits)

load_packet_written :
    (old r : Route) (v : IsRoute r)
    → load_packet old (route_head r ++ v.body) 0 (10 + length r.platform + length v.body)
      ≡ done (true, reloaded r v.body)
unfolding load_packet
load_packet_written old r v =
    let name : u8 (length r.platform) ≡ length r.platform = omega (arith, v.name_fits) in
    let whole = take-append_length r.platform v.body in
    ground (
      arith,
      v.name_fits,
      v.body_fits,
      header_fields_written old r v.body [] v,
      header_fields_written old r v.body r.platform v,
      attach_written r old r.platform v refl,
      length-zero r.platform,
    )

fields-reloaded : (r : Route) (v : IsRoute r) → fields (reloaded r v.body) ≡ fields r
unfolding reset contents unsafe_addr
fields-reloaded r v = ground (
  arith,
  v.payload_is,
  v.body_fits,
  drop-append_length r.platform v.body,
  take-all (length v.body) v.body (omega arith),
  length-zero v.body,
)

-- A route whose fields fit and whose payload is a whole buffer (or missing) is written by `ToArray`
-- into a block of the size `SizeOf` gives, and `Load` of that block succeeds, whatever the object
-- held before, with the same fields and a payload of the same bytes.
pub load-to_array :
    (old r : Route) (v : IsRoute r)
    → (size : ℕ) × (block : Bytes) × (loaded : Route) × (size_of r ≡ done size)
      × (to_array r size ≡ done block)
      × (length block ≡ size)
      × (load old (some (record { buffer = some block; offset = 0; length = size }))
          ≡ done (true, loaded))
      × (fields loaded ≡ fields r)
unfolding size_of load
load-to_array old r v = (
  10 + length r.platform + length v.body,
  route_head r ++ v.body,
  reloaded r v.body,
  ground (arith, v.payload_is, v.body_fits),
  to_array_written r v,
  ground (arith, length-append r.platform v.body),
  ground (arith, load_packet_written old r v, v.body_fits),
  fields-reloaded r v,
)
