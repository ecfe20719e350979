-- ===== src/Stage/Gzip.antt =====
-- stage/compression/compress.hpp and decompress.hpp: the size limits around zlib, which is not part
-- of the repository and enters as `Zlib`. The `DEBUG` checks are not compiled, and initialising a
-- stream does not fail.
pub mod Limits
use linux_stage_asio.Prelude.{
  ℕ, zero, suc, ◌+◌, ◌-◌, ◌*◌, ◌<◌, ◌≡◌, Bool, true, false, ◌||◌, Option, none, some, [], ◌∷◌, ltb,
  if◌then◌else◌, length,
}
use linux_stage_asio.Prelude.Words.{Bytes, IsBytes}

-- zlib with the window bits that the code passes: a gzip stream, and what it inflates to, `none`
-- for a return code other than Z_OK, Z_STREAM_END and Z_BUF_ERROR.
pub record Zlib : Type 0 where
  pub deflate : Bytes → Bytes
  pub inflate : Bytes → Option Bytes

-- What zlib documents: inflating undoes deflating, a gzip stream has a header, and it is bytes.
pub record IsZlib (z : Zlib) : Type 0 where
  pub inflate-deflate : (b : Bytes) → IsBytes b → z.inflate (z.deflate b) ≡ some b
  pub deflate-length : (b : Bytes) → 0 < length (z.deflate b)
  pub deflate-IsBytes : (b : Bytes) → IsBytes b → IsBytes (z.deflate b)

abbrev pub compress_max : ℕ
compress_max = 2_000_000_000

abbrev pub decompress_max : ℕ
decompress_max = 1_000_000_000

-- `none` for the exception of a block that is too large.
unfoldable pub compress : Zlib → Bytes → Option Bytes
compress z block = if ltb compress_max (length block) then none else some (z.deflate block)

-- The `do … while` loop of `decompress`: whether it ends before the output outgrows the limit.
-- Each round offers `room` more bytes, and a round that leaves some of them unused is the last.
unfoldable pub rounds_fit : ℕ → ℕ → ℕ → ℕ → Bool
rounds_fit zero room uncompressed left = false
rounds_fit (suc fuel) room uncompressed left =
    let next = rounds_fit fuel room (uncompressed + room) (left - room) in
    if ltb decompress_max (uncompressed + room) then false else if ltb left room then true else next

-- `none` for the exceptions. The fuel of the loop is what its limit leaves room for.
unfoldable pub decompress : Zlib → Bytes → Option Bytes
decompress z block =
    if ltb decompress_max (length block) || ltb decompress_max (length block * 2)
    then none
    else elim (z.inflate block) [
      | none ↦ none
      | some output ↦
          if rounds_fit (suc decompress_max) (2 * length block) 0 (length output)
          then some output
          else none
    ]
