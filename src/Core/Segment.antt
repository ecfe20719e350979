-- ===== src/Core/Segment.antt =====
-- stage/core/BufferSegment.h: a shared buffer with an offset and a length. The two are C `int`s and
-- stand here as their 32-bit patterns; `this` is never null and an allocation never fails.
use linux_stage_asio.Prelude.Outcome.{Outcome, done, fault}
use linux_stage_asio.Prelude.{
  true, false, not, ◌&&◌, ◌++◌, min, ltb, length, ℕ, ◌^◌, Bool, ◌||◌, Option, none, some, [], leb,
  ◌==◌, if◌then◌else◌, take, drop,
}
use linux_stage_asio.Prelude.Words.{Bytes}

pub record Segment : Type 0 where
  pub buffer : Option Bytes
  pub offset : ℕ
  pub length : ℕ

-- The sign bit of an `int`.
abbrev pub is_negative : ℕ → Bool
is_negative n = leb (2 ^ 31) n

abbrev pub empty_segment : Segment
empty_segment = record { buffer = none; offset = 0; length = 0 }

-- `none` is the `std::runtime_error` of `Reset`.
unfoldable pub reset : Option Bytes → ℕ → ℕ → Option Segment
reset buffer offset len =
    if is_negative offset
    then none
    else if is_negative len
    then none
    else some (record { buffer = if len == 0 then none else buffer; offset = offset; length = len })

-- The memory behind the pointer that is returned, or `none` for NULL.
unfoldable pub unsafe_addr : Segment → Option Bytes
unsafe_addr s =
    if s.length == 0 || is_negative s.length
    then none
    else if is_negative s.offset
    then none
    else elim s.buffer [ none ↦ none | some b ↦ some (drop s.offset b) ]

-- The bytes that a segment stands for.
unfoldable pub contents : Segment → Bytes
unfolding unsafe_addr
contents s = elim (unsafe_addr s) [ none ↦ [] | some b ↦ take s.length b ]

-- `Clear`
abbrev pub clear : Segment → Segment
clear s = empty_segment

abbrev pub is_null : Option Bytes → Bool
is_null none = true
is_null (some memory) = false

abbrev pub get_memory : Option Bytes → Bytes
get_memory none = []
get_memory (some memory) = memory

-- What `CopyTo` returns: ~1, ~2, ~3, ~4 and ~5, or the number of bytes, with the buffer behind the copy.
pub data Copied : Type 0 where
  bad_offset : Copied
  bad_length : Copied
  no_buffer : Copied
  bad_size : Copied
  no_source : Copied
  copied : ℕ → Option Bytes → Copied

-- The loop of `CopyTo`
abbrev pub move : Bytes → Option Bytes → ℕ → Outcome Copied
move source none count = if count == 0 then done (copied 0 none) else fault
move source (some target) count =
    if ltb (length source) count || ltb (length target) count
    then fault
    else done (copied count (some (take count source ++ drop count target)))

-- `CopyTo` into memory of so many bytes; reading or writing behind memory is undefined.
unfoldable pub copy_to : Segment → Option Bytes → ℕ → Outcome Copied
unfolding unsafe_addr
copy_to s buffer size =
    let count : ℕ = if is_negative s.length then s.length else min s.length size in
    if is_negative s.offset
    then done bad_offset
    else if is_negative size
    then done bad_length
    else if is_null buffer && not (size == 0)
    then done no_buffer
    else if is_negative count
    then done bad_size
    else if is_null (unsafe_addr s) && not (count == 0)
    then done no_source
    else move (get_memory (unsafe_addr s)) buffer count
