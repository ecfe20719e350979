-- ===== src/Net/Checksum.antt =====
-- `Socket::MaskOff32` and `Socket::MaskOff` of stage/net/Socket.cpp: the Internet checksum.
pub mod Laws
use linux_stage_asio.Prelude.{ℕ, ◌+◌, ◌*◌, ◌/◌, ◌%◌, ◌^◌, [], ◌∷◌, ◌==◌, if◌then◌else◌}
use linux_stage_asio.Prelude.Words.{Bytes, u16, u32}

-- The `while (len > 1)` loop and the odd octet behind it: octets pair up, the first one most
-- significant, and the 32-bit accumulator wraps.
unfoldable pub sum_octets : Bytes → ℕ → ℕ
sum_octets [] acc = acc
sum_octets (a ∷ []) acc = u32 (acc + u16 (a * 2 ^ 8))
sum_octets (a ∷ b ∷ rest) acc = sum_octets rest (u32 (acc + (u16 (a * 2 ^ 8) + b)))

-- (acc >> 16) + (acc & 0xffff)
unfoldable pub fold_carry : ℕ → ℕ
fold_carry acc = u32 (acc / 2 ^ 16 + acc % 2 ^ 16)

unfoldable pub mask_off32 : Bytes → ℕ → ℕ
unfolding sum_octets fold_carry
mask_off32 octets acc =
    let folded = fold_carry (sum_octets octets acc) in
    if folded / 2 ^ 16 == 0 then folded else fold_carry folded

-- ntohs on a little-endian machine.
abbrev pub ntohs : ℕ → ℕ
ntohs n = n % 2 ^ 8 * 2 ^ 8 + n / 2 ^ 8 % 2 ^ 8

-- `MaskOff` hands `MaskOff32` the length 0, not its own `len`.
unfoldable pub mask_off : Bytes → ℕ → ℕ
unfolding mask_off32
mask_off octets len = ntohs (u16 (mask_off32 [] 0))
