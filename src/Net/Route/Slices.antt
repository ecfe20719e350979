-- ===== src/Net/Route/Slices.antt =====
-- The payload of a loaded route is a slice of the packet, and what `ToArray` refuses.
use linux_stage_asio.Prelude.{
  ℕ, zero, suc, ◌+◌, ◌-◌, ◌^◌, ◌≤◌, ◌<◌, ◌≡◌, refl, ap, ◌⊎◌, inl, inr, true, none, some, [], ◌∷◌,
  arith, ltb, ◌==◌, if◌then◌else◌, Bool-cases, length, get_or, take, drop, length-take, length-drop,
}
use linux_stage_asio.Prelude.Words.{Bytes, IsBytes}
use linux_stage_asio.Prelude.Outcome.{done, refused}
use linux_stage_asio.Core.Segment.{Segment, reset}
use linux_stage_asio.Net.Route.{
  Route, size_of, to_array, to_packet, load, load_packet, header_fields, attach,
}

-- The payload ends where the segment ends, shares its buffer unless it is empty, and starts behind
-- the header and the name.
pub record Sliced (s : Segment) (r : Route) : Type 0 where
  pub slice : Segment
  pub is_payload : r.payload ≡ some slice
  pub starts : slice.offset ≡ s.offset + 10 + length r.platform
  pub ends : slice.offset + slice.length ≡ s.offset + s.length
  pub shares : (slice.length ≡ 0) ⊎ (slice.buffer ≡ s.buffer)
  pub name_bound : length r.platform < 2 ^ 8

get_or_byte : (xs : Bytes) (i : ℕ) → IsBytes xs → get_or xs i 0 < 256
get_or_byte [] i v = omega arith
get_or_byte (x ∷ xs) zero v = v.0
get_or_byte (x ∷ xs) (suc i) v = get_or_byte xs i v.1

drop-IsBytes : (xs : Bytes) (n : ℕ) → IsBytes xs → IsBytes (drop n xs)
drop-IsBytes xs zero v = v
drop-IsBytes [] (suc n) v = v
drop-IsBytes (x ∷ xs) (suc n) v = drop-IsBytes xs n v.1

attach-Sliced :
    (r loaded : Route) (packet : Bytes) (offset len head : ℕ)
    → head ≡ 10 + length r.platform
    → head ≤ len
    → length r.platform < 2 ^ 8
    → attach r packet offset len head ≡ done (true, loaded)
    → Sliced (record { buffer = some packet; offset = offset; length = len }) loaded
unfolding reset
attach-Sliced r loaded packet offset len head is fits name h =
    let slice : Segment = record {
      buffer = if (len - head) == 0 then none else some packet;
      offset = offset + head;
      length = len - head;
    } in
    let both : (loaded.payload ≡ some slice) × (loaded.platform ≡ r.platform) = ground arith in
    let name_is = ap length both.1 in
    record {
      slice = slice;
      is_payload = both.0;
      starts = omega (arith, is, name_is);
      ends = omega (arith, fits);
      shares = ground arith;
      name_bound = omega (arith, name, name_is);
    }

load_packet-Sliced :
    (old loaded : Route) (packet : Bytes) (offset len : ℕ)
    → offset + len ≤ length packet
    → IsBytes packet
    → load_packet old packet offset len ≡ done (true, loaded)
    → Sliced (record { buffer = some packet; offset = offset; length = len }) loaded
unfolding load_packet reset
load_packet-Sliced old loaded packet offset len inside bytes h =
    let name = get_or_byte (drop offset packet) 9 (drop-IsBytes packet offset bytes) in
    let memory = drop offset packet in
    let n = get_or memory 9 0 in
    elim (Bool-cases (ltb len 10)) [
      | inl short ↦ absurd (ground (arith, short))
      | inr enough ↦ elim (Bool-cases (n == 0)) [
        | inl z ↦
            attach-Sliced (header_fields old memory []) loaded packet offset len 10 refl
              (ground (arith, enough)) (omega arith) (ground (arith, enough, z))
        | inr nz ↦ elim (Bool-cases (ltb (len - 10) n)) [
          | inl over ↦ absurd (ground (arith, enough, nz, over))
          | inr fits ↦
              let n_fits : 10 + n ≤ len = ground (arith, enough, fits) in
              let size : length (take n (drop 10 memory)) ≡ n = omega (
                arith,
                length-take n (drop 10 memory),
                length-drop 10 memory,
                length-drop offset packet,
                n_fits,
              ) in
              attach-Sliced (header_fields old memory (take n (drop 10 memory))) loaded packet
                offset len (10 + n) (omega (arith, size)) n_fits (omega (arith, size, name))
                (ground (arith, enough, nz, fits))
        ]
      ]
    ]

-- A segment that lies inside its buffer of bytes is loaded only so that the payload is a slice of
-- the same buffer, which starts behind the header and the name and ends where the segment ends; the name has fewer than 256 bytes.
pub load-Sliced :
    (old loaded : Route) (s : Segment) (packet : Bytes)
    → s.buffer ≡ some packet
    → s.offset + s.length ≤ length packet
    → IsBytes packet
    → load old (some s) ≡ done (true, loaded)
    → Sliced s loaded
unfolding load
load-Sliced old loaded s packet b inside bytes h =
    let whole : load_packet old packet s.offset s.length ≡ done (true, loaded) = ground arith in
    let v = load_packet-Sliced old loaded packet s.offset s.length inside bytes whole in
    record {
      slice = v.slice;
      is_payload = v.is_payload;
      starts = v.starts;
      ends = v.ends;
      shares = ground (arith, v.shares);
      name_bound = v.name_bound;
    }

-- `ToPacket` refuses every route whose name has more than 255 bytes and whose size is an `int`.
pub to_packet_long_name :
    (r : Route) (fk cmd ack_no size : ℕ)
    → 2 ^ 8 ≤ length r.platform
    → size_of r ≡ done size
    → to_packet r fk cmd ack_no ≡ refused
unfolding to_packet to_array
to_packet_long_name r fk cmd ack_no size long sized = ground (arith, long, sized)
