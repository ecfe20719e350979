-- ===== src/Uuid/Guid.antt =====
-- uuid/Guid.cpp and Guid.h: identifiers of 16 bytes, printed and read. Numbers are patterns of their
-- width. The text fits the buffer of 255 characters, and behind the characters of a string there is
-- a NUL.
pub mod Digits
pub mod RoundTrip
pub mod Memory
use linux_stage_asio.Prelude.{
  ℕ, zero, suc, ◌+◌, ◌-◌, ◌*◌, ◌/◌, ◌%◌, ◌^◌, min, Bool, true, false, ◌&&◌, ◌||◌, Option, none,
  some, [], ◌∷◌, ◌++◌, ltb, leb, ◌==◌, if◌then◌else◌, length, take, drop, replicate,
}
use linux_stage_asio.Prelude.Words.{u32, Bytes, put16, put32, word16, word32}
use linux_stage_asio.Prelude.Outcome.{Outcome, done, fault}
use linux_stage_asio.Core.Segment.{is_negative}

pub record Guid : Type 0 where
  pub data1 : ℕ
  pub data2 : ℕ
  pub data3 : ℕ
  pub data4 : Bytes

pub data ToStringFormat : Type 0 where
  format_d : ToStringFormat
  format_n : ToStringFormat
  format_b : ToStringFormat
  format_p : ToStringFormat
  format_x : ToStringFormat

abbrev pub empty_guid : Guid
empty_guid = record { data1 = 0; data2 = 0; data3 = 0; data4 = replicate 8 0 }

abbrev pub hex_char : ℕ → ℕ
hex_char d = if ltb d 10 then b'0' + d else b'a' + (d - 10)

-- `%08x`, `%04x` and `%02x` of a number of no more digits
abbrev pub print_hex : ℕ → ℕ → Bytes
print_hex zero n = []
print_hex (suc digits) n = print_hex digits (n / 16) ++ hex_char (n % 16) ∷ []

-- `%2x`, padded by a blank
abbrev pub print_padded : ℕ → Bytes
print_padded n = if ltb n 16 then b' ' ∷ hex_char n ∷ [] else print_hex 2 n

abbrev pub print_bytes : Bytes → Bytes
print_bytes [] = []
print_bytes (n ∷ ns) = print_hex 2 n ++ print_bytes ns

-- The text with hyphens, in front of a closing character.
abbrev pub dashed : Guid → Bytes → Bytes
dashed g close =
    print_hex 8 g.data1
    ++ (b'-'
        ∷ (print_hex 4 g.data2
            ++ (b'-'
                ∷ (print_hex 4 g.data3
                    ++ (b'-'
                        ∷ (print_bytes (take 2 g.data4)
                            ++ (b'-' ∷ (print_bytes (drop 2 g.data4) ++ close))))))))

abbrev pub print_prefixed : Bytes → Bytes
print_prefixed [] = b'}' ∷ b'}' ∷ []
print_prefixed (n ∷ ns) =
    let comma : Bytes = elim ns [ [] ↦ [] | _ ∷ _ ↦ b',' ∷ [] ] in
    b'0' ∷ (b'x' ∷ (print_padded n ++ (comma ++ print_prefixed ns)))

-- `ToString`
unfoldable pub to_string : Guid → ToStringFormat → Bytes
to_string g format_d = dashed g []
to_string g format_n =
    print_hex 8 g.data1 ++ (print_hex 4 g.data2 ++ (print_hex 4 g.data3 ++ print_bytes g.data4))
to_string g format_b = b'{' ∷ dashed g (b'}' ∷ [])
to_string g format_p = b'(' ∷ dashed g (b')' ∷ [])
to_string g format_x =
    b'{'
    ∷ (b'0'
        ∷ (b'x'
            ∷ (print_hex 8 g.data1
                ++ (b','
                    ∷ (b'0'
                        ∷ (b'x'
                            ∷ (print_hex 4 g.data2
                                ++ (b','
                                    ∷ (b'0'
                                        ∷ (b'x'
                                            ∷ (print_hex 4 g.data3
                                                ++ (b','
                                                    ∷ (b'{' ∷ print_prefixed g.data4)))))))))))))

-- How `HexToNumber` takes a character.
pub data CharKind : Type 0 where
  separator : CharKind
  digit : ℕ → CharKind
  other : CharKind

abbrev pub is_separator : ℕ → Bool
is_separator ch = ch == b'-' || ch == b'{' || ch == b'}' || ch == b',' || ch == b'(' || ch == b')'

abbrev pub char_kind : ℕ → CharKind
char_kind ch =
    if is_separator ch
    then separator
    else if leb b'0' ch && leb ch b'9'
    then digit (ch - b'0')
    else if leb b'a' ch && leb ch b'f'
    then digit (10 + (ch - b'a'))
    else if leb b'A' ch && leb ch b'F'
    then digit (10 + (ch - b'A'))
    else other

-- The loop of `HexToNumber`: the number, the digits that it still waits for, and the stream. Before the
-- first digit the number is 0, so that shifting it changes nothing.
unfoldable pub hex_from : ℕ → ℕ → ℕ → Bytes → ℕ × Bytes
hex_from bits zero nu stream = (nu, stream)
hex_from bits (suc left) nu [] = (nu, [])
hex_from bits (suc left) nu (ch ∷ stream) = elim (char_kind ch) [
  | separator ↦ hex_from bits (suc left) nu stream
  | digit d ↦ hex_from bits left ((nu * 16 + d) % 2 ^ bits) stream
  | other ↦ (nu, stream)
]

-- `HexToNumber` for a type of so many bytes
unfoldable pub hex_to_number : ℕ → Bytes → ℕ × Bytes
unfolding hex_from
hex_to_number size [] = (0, [])
hex_to_number size (ch ∷ stream) = hex_from (8 * size) (2 * size) 0 (ch ∷ stream)

unfoldable pub read_bytes : ℕ → Bytes → Bytes
unfolding hex_to_number
read_bytes zero stream = []
read_bytes (suc n) stream = let (byte, rest) = hex_to_number 1 stream in byte ∷ read_bytes n rest

-- `ParseExact`
unfoldable pub parse_exact : Bytes → Guid
unfolding hex_to_number read_bytes
parse_exact [] = empty_guid
parse_exact (ch ∷ text) =
    let (data1, s1) = hex_to_number 4 (ch ∷ text) in
    let (data2, s2) = hex_to_number 2 s1 in
    let (data3, s3) = hex_to_number 2 s2 in
    record { data1 = data1; data2 = data2; data3 = data3; data4 = read_bytes 8 s3 }

-- `ToArray`: the packed structure in memory.
abbrev pub to_array : Guid → Bytes
to_array g = put32 g.data1 ++ (put16 g.data2 ++ (put16 g.data3 ++ g.data4))

-- The structure that lies at 16 bytes.
abbrev pub guid_at : Bytes → Guid
guid_at (a ∷ b ∷ c ∷ d ∷ e ∷ f ∷ g ∷ h ∷ rest) = record {
  data1 = word32 a b c d;
  data2 = word16 e f;
  data3 = word16 g h;
  data4 = rest;
}
guid_at _ = empty_guid

-- `Guid(buffer, length)`: `memcpy` over zeros; reading behind the buffer is undefined.
unfoldable pub from_buffer : Option Bytes → ℕ → Outcome Guid
from_buffer none size = done empty_guid
from_buffer (some buffer) size =
    let count = min size 16 in
    if size == 0 || is_negative size
    then done empty_guid
    else if ltb (length buffer) count
    then fault
    else done (guid_at (take count buffer ++ drop count (to_array empty_guid)))

-- `NewGuid(x, y)`
abbrev pub new_guid : ℕ → ℕ → Guid
new_guid x y =
    guid_at (put32 (u32 x) ++ (put32 (x / 2 ^ 32) ++ (put32 (u32 y) ++ put32 (y / 2 ^ 32))))

abbrev pub same_bytes : Bytes → Bytes → Bool
same_bytes [] [] = true
same_bytes [] (y ∷ ys) = false
same_bytes (x ∷ xs) [] = false
same_bytes (x ∷ xs) (y ∷ ys) = x == y && same_bytes xs ys

-- `operator==` by `memcmp`, and `operator!=`, which answers the same.
abbrev pub equal : Guid → Guid → Bool
equal g h = same_bytes (to_array g) (to_array h)

abbrev pub not_equal : Guid → Guid → Bool
not_equal left right = equal right left
