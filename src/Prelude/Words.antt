-- ===== src/Prelude/Words.antt =====
-- Casts to the fixed widths of C, bytes, and little-endian words in memory.
use Prim.Native.Nat.{ℕ, ◌+◌, ◌*◌, ◌/◌, ◌%◌, ◌^◌, ◌<◌}
use mathlib.Core.List.{List, [], ◌∷◌}
use linux_stage_asio.Prelude.Lists.{All}

abbrev pub u8 : ℕ → ℕ
u8 n = n % 2 ^ 8

abbrev pub u16 : ℕ → ℕ
u16 n = n % 2 ^ 16

abbrev pub u32 : ℕ → ℕ
u32 n = n % 2 ^ 32

abbrev pub Bytes : Type 0
Bytes = List ℕ

abbrev pub IsBytes : Bytes → Type 0
IsBytes = All (λ b. b < 256)

-- The bytes of a little-endian word, as a store through a pointer writes them.
abbrev pub put16 : ℕ → Bytes
put16 n = u8 n ∷ u8 (n / 2 ^ 8) ∷ []

abbrev pub put32 : ℕ → Bytes
put32 n = u8 n ∷ u8 (n / 2 ^ 8) ∷ u8 (n / 2 ^ 16) ∷ u8 (n / 2 ^ 24) ∷ []

abbrev pub word16 : ℕ → ℕ → ℕ
word16 a b = a + b * 2 ^ 8

abbrev pub word32 : ℕ → ℕ → ℕ → ℕ → ℕ
word32 a b c d = a + b * 2 ^ 8 + c * 2 ^ 16 + d * 2 ^ 24
