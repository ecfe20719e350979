-- ===== src/Stage/Gzip/Limits.antt =====
-- Blocks that pass both size limits.
use linux_stage_asio.Prelude.{ℕ, zero, suc, ◌+◌, ◌-◌, ◌*◌, ◌≤◌, ◌<◌, ◌≡◌, true, some, arith, length}
use linux_stage_asio.Prelude.Words.{Bytes, IsBytes}
use linux_stage_asio.Stage.Gzip.{Zlib, IsZlib, compress, decompress, decompress_max, rounds_fit}

-- The loop ends by its own test if the output and one more round fit the limit.
rounds_fit-enough :
    (fuel room uncompressed left : ℕ)
    → 0 < room
    → left < fuel
    → uncompressed + left + room ≤ decompress_max
    → rounds_fit fuel room uncompressed left ≡ true
unfolding rounds_fit
rounds_fit-enough zero room uncompressed left pos f h = absurd (omega arith)
rounds_fit-enough (suc fuel) room uncompressed left pos f h =
    ground (arith, rounds_fit-enough fuel room (uncompressed + room) (left - room))

-- With a zlib that keeps its documentation, a block that does not grow, and is no larger than a third
-- of the limit of `decompress`, is compressed to what zlib makes of it, and comes back.
pub decompress-compress :
    (z : Zlib) (block : Bytes)
    → IsZlib z
    → IsBytes block
    → length (z.deflate block) ≤ length block
    → 3 * length block ≤ decompress_max
    → (compress z block ≡ some (z.deflate block)) × (decompress z (z.deflate block) ≡ some block)
unfolding compress decompress
decompress-compress z block law v shrinks small =
    let size = length (z.deflate block) in
    (
      ground arith,
      ground (
        arith,
        law.inflate-deflate block v,
        rounds_fit-enough (suc decompress_max) (2 * size) 0 (length block)
            (omega (arith, law.deflate-length block)) (omega arith) (omega arith),
      ),
    )
