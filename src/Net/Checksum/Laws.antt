-- ===== src/Net/Checksum/Laws.antt =====
-- The checksum against the plain sum of 16-bit words.
use linux_stage_asio.Prelude.{◌⊎◌, ℕ, ◌+◌, ◌*◌, ◌%◌, ◌^◌, ◌≤◌, ◌<◌, ◌≡◌, [], ◌∷◌, length, arith}
use linux_stage_asio.Prelude.Words.{Bytes, IsBytes, u16, u32}
use linux_stage_asio.Net.Checksum.{sum_octets, mask_off32}

-- The sum of the big-endian 16-bit words of a block, an odd octet padded by zero: RFC 1071.
abbrev pub word_sum : Bytes → ℕ
word_sum [] = 0
word_sum (a ∷ []) = a * 2 ^ 8
word_sum (a ∷ b ∷ rest) = a * 2 ^ 8 + b + word_sum rest

pub sum_octets-word_sum :
    (octets : Bytes) (acc : ℕ)
    → IsBytes octets
    → acc + word_sum octets < 2 ^ 32
    → sum_octets octets acc ≡ acc + word_sum octets
unfolding sum_octets
sum_octets-word_sum [] acc v h = omega arith
sum_octets-word_sum (a ∷ []) acc v h = omega arith
sum_octets-word_sum (a ∷ b ∷ rest) acc v h =
    omega (arith, sum_octets-word_sum rest (u32 (acc + (u16 (a * 2 ^ 8) + b))) v.1.1 (omega arith))

-- A word sum of a block is bounded by its length.
pub word_sum_bound : (octets : Bytes) → IsBytes octets → word_sum octets ≤ 65535 * length octets
word_sum_bound [] v = omega arith
word_sum_bound (a ∷ []) v = omega arith
word_sum_bound (a ∷ b ∷ rest) v = omega (arith, word_sum_bound rest v.1.1)

-- 16-bit one's complement addition: congruent to the sum modulo 65535, and zero for a zero sum only.
pub record IsFolded (sum folded : ℕ) : Type 0 where
  pub fits : folded < 2 ^ 16
  pub congruent : folded % 65535 ≡ sum % 65535
  pub zero_only : (0 < folded) ⊎ (sum ≡ 0)

-- The carry is folded at most twice.
mask_off32-fold :
    (octets : Bytes) (acc : ℕ)
    → IsBytes octets
    → acc + word_sum octets < 2 ^ 32
    → IsFolded (acc + word_sum octets) (mask_off32 octets acc)
unfolding mask_off32
mask_off32-fold octets acc v h = ground (arith, sum_octets-word_sum octets acc v h)

-- Over a block of at most 65536 bytes, from a 16-bit accumulator, `MaskOff32` is the 16-bit one's
-- complement sum: it fits 16 bits and is congruent to the accumulator plus the sum of the
-- big-endian words modulo 65535, and it is zero only if that sum is.
pub mask_off32-IsFolded :
    (octets : Bytes) (acc : ℕ)
    → IsBytes octets
    → acc < 2 ^ 16
    → length octets ≤ 65536
    → IsFolded (acc + word_sum octets) (mask_off32 octets acc)
mask_off32-IsFolded octets acc v h n =
    mask_off32-fold octets acc v (omega (arith, word_sum_bound octets v))
