-- ===== src/Prelude/Reader.antt =====
-- Reading a block of memory from the front with a count of what is left: `if ((count -= n) < 0)
-- return false`, then the load.
use Prim.Native.Nat.{ℕ}
use mathlib.Core.Path.{◌≡◌}
use mathlib.Core.List.{[], ◌∷◌, ◌++◌}
use mathlib.Core.Option.{Option, none, some}
use native.Mathlib.Omega.{arith}
use linux_stage_asio.Prelude.Tests.{ltb, if◌then◌else◌}
use linux_stage_asio.Prelude.Lists.{
  length, take, drop, length-append, take-append_length, drop-append_length,
}
use linux_stage_asio.Prelude.Words.{Bytes, word16, word32}

abbrev pub Reader : Type 0 → Type 0
Reader A = Bytes → Option (A × Bytes)

infixl 5 ◌>>=◌
abbrev pub ◌>>=◌ : {A B : Type 0} → Reader A → (A → Reader B) → Reader B
◌>>=◌ m f block = elim (m block) [ none ↦ none | some (a, rest) ↦ f a rest ]

abbrev pub give : {A : Type 0} → A → Reader A
give a block = some (a, block)

abbrev pub fail : {A : Type 0} → Reader A
fail block = none

abbrev pub get8 : Reader ℕ
get8 [] = none
get8 (a ∷ rest) = some (a, rest)

abbrev pub get16 : Reader ℕ
get16 [] = none
get16 (a ∷ []) = none
get16 (a ∷ b ∷ rest) = some (word16 a b, rest)

abbrev pub get32 : Reader ℕ
get32 [] = none
get32 (a ∷ []) = none
get32 (a ∷ b ∷ []) = none
get32 (a ∷ b ∷ c ∷ []) = none
get32 (a ∷ b ∷ c ∷ d ∷ rest) = some (word32 a b c d, rest)

abbrev pub get_bytes : ℕ → Reader Bytes
get_bytes n block = if ltb (length block) n then none else some (take n block, drop n block)

pub get_bytes-append : (xs rest : Bytes) → get_bytes (length xs) (xs ++ rest) ≡ some (xs, rest)
get_bytes-append xs rest =
    ground (arith, length-append xs rest, take-append_length xs rest, drop-append_length xs rest)
