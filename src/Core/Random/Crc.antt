-- ===== src/Core/Random/Crc.antt =====
-- stage/core/Random.h: the table of the hash and the division by a polynomial.
use linux_stage_asio.Prelude.{
  List, ℕ, zero, suc, ◌+◌, ◌*◌, ◌/◌, ◌%◌, ◌^◌, ◌<◌, ◌≡◌, refl, sym, ap, ap₂, ◌∙◌, Bool, true, false,
  ◌&&◌, some, [], ◌∷◌, arith, ltb, ◌==◌, if◌then◌else◌, ==_iff, length, get_or, take, take-all,
  if_elim,
}
use linux_stage_asio.Prelude.Words.{Bytes, IsBytes}
use linux_stage_asio.Prelude.Outcome.{done, fault}
use linux_stage_asio.Prelude.Bits.{
  bit_xor_step, bit_xor-lt, bit_xor_fields, bit_xor-byte, double_pow, differ-lt,
}
use linux_stage_asio.Core.Segment.{is_negative}
use linux_stage_asio.Core.Random.{quality_table, hash_byte, hash_bytes, text_length, get_hash_code}
use Prim.Native.Nat.{bit_xor, bit_xor-bitwise, differ}
use native.Mathlib.Nat.{pow-suc}

-- CRC-32: a shift to the right and, for the digit that falls out, an exclusive or with the polynomial.
unfoldable pub division_step : ℕ → ℕ
division_step n = bit_xor (n / 2) (if n % 2 == 1 then 0xEDB88320 else 0)

abbrev pub divide : ℕ → ℕ → ℕ
divide zero n = n
divide (suc k) n = divide k (division_step n)

abbrev pub remainder : ℕ → Bytes → ℕ
remainder n [] = n
remainder n (byte ∷ bytes) = remainder (divide 8 (bit_xor n byte)) bytes

abbrev pub crc32 : Bytes → ℕ
crc32 bytes = bit_xor (remainder 0xFFFFFFFF bytes) 0xFFFFFFFF

-- The laws of the exclusive or that the division needs.
bit_xor_half : (a b : ℕ) → bit_xor a b / 2 ≡ bit_xor (a / 2) (b / 2)
bit_xor_half a b =
    omega (arith, bit_xor_step a b, differ-lt (a % 2) (b % 2) (omega arith) (omega arith))

bit_xor_low : (a b : ℕ) → bit_xor a b % 2 ≡ differ (a % 2) (b % 2)
bit_xor_low a b =
    omega (arith, bit_xor_step a b, differ-lt (a % 2) (b % 2) (omega arith) (omega arith))

differ_assoc : (x y z : ℕ) → x < 2 → y < 2 → z < 2 → differ (differ x y) z ≡ differ x (differ y z)
differ_assoc zero zero z h k l = refl
differ_assoc zero (suc y) z h k l = refl
differ_assoc (suc x) zero z h k l = refl
differ_assoc (suc zero) (suc zero) zero h k l = refl
differ_assoc (suc zero) (suc zero) (suc zero) h k l = refl
differ_assoc (suc zero) (suc zero) (suc (suc z)) h k l = absurd (omega arith)
differ_assoc (suc zero) (suc (suc y)) z h k l = absurd (omega arith)
differ_assoc (suc (suc x)) (suc y) z h k l = absurd (omega arith)

bit_xor_assoc :
    (k a b c : ℕ)
    → a < 2 ^ k
    → b < 2 ^ k
    → c < 2 ^ k
    → bit_xor (bit_xor a b) c ≡ bit_xor a (bit_xor b c)
bit_xor_assoc zero zero zero zero h i j = refl
bit_xor_assoc zero zero zero (suc c) h i j = absurd (omega arith)
bit_xor_assoc zero zero (suc b) c h i j = absurd (omega arith)
bit_xor_assoc zero (suc a) b c h i j = absurd (omega arith)
bit_xor_assoc (suc k) a b c h i j =
    bit_xor_step (bit_xor a b) c
    ∙ ap₂ (λ s t. bit_xor s (c / 2) * 2 + differ t (c % 2)) (bit_xor_half a b) (bit_xor_low a b)
    ∙ ap₂ (λ s t. s * 2 + t)
        (bit_xor_assoc k (a / 2) (b / 2) (c / 2) (omega (arith, pow-suc 2 k))
          (omega (arith, pow-suc 2 k)) (omega (arith, pow-suc 2 k)))
        (differ_assoc (a % 2) (b % 2) (c % 2) (omega arith) (omega arith) (omega arith))
    ∙ sym (
        bit_xor_step a (bit_xor b c)
        ∙ ap₂ (λ s t. bit_xor (a / 2) s * 2 + differ (a % 2) t) (bit_xor_half b c)
            (bit_xor_low b c))

-- A table holds the divisions from a number on.
holds_divisions : List ℕ → ℕ → Bool
holds_divisions [] first = true
holds_divisions (entry ∷ table) first = entry == divide 8 first && holds_divisions table (first + 1)

holds_divisions-get_or :
    (table : List ℕ) (first x : ℕ)
    → holds_divisions table first ≡ true
    → x < length table
    → get_or table x 0 ≡ divide 8 (first + x)
unfolding holds_divisions
holds_divisions-get_or [] first x h inside = absurd (omega arith)
holds_divisions-get_or (entry ∷ table) first zero h inside =
    let same : (entry == divide 8 first) ≡ true = ground arith in
    (==_iff entry (divide 8 first)).0 same ∙ ap (divide 8) (omega arith)
holds_divisions-get_or (entry ∷ table) first (suc x) h inside =
    let later : holds_divisions table (first + 1) ≡ true = ground arith in
    holds_divisions-get_or table (first + 1) x later (omega arith) ∙ ap (divide 8) (omega arith)

quality_table-right : (holds_divisions quality_table 0 ≡ true) × (length quality_table ≡ 256)
unfolding holds_divisions quality_table division_step
quality_table-right = (refl, refl)

quality_table-divide : (x : ℕ) → x < 256 → get_or quality_table x 0 ≡ divide 8 x
quality_table-divide x h =
    let (right, size) = quality_table-right in
    holds_divisions-get_or quality_table 0 x right (omega (arith, size))
    ∙ ap (divide 8) (omega arith)

bit_xor_none : (n : ℕ) → bit_xor 0 n ≡ n
bit_xor_none n = simp bit_xor-bitwise refl

division_step-lt : (m : ℕ) → m < 2 ^ 32 → division_step m < 2 ^ 32
unfolding division_step
division_step-lt m h = bit_xor-lt 32 (m / 2) (if m % 2 == 1 then 0xEDB88320 else 0) (omega arith) (
    if_elim (λ (n : ℕ). n < 2 ^ 32) (m % 2 == 1) 0xEDB88320 0 (λ e. omega arith) (λ e. omega arith))

-- What lies above the digit that falls out is shifted, no more.
division_step_over :
    (k q m : ℕ)
    → q * 2 ^ suc k < 2 ^ 32
    → m < 2 ^ 32
    → division_step (bit_xor (q * 2 ^ suc k) m) ≡ bit_xor (q * 2 ^ k) (division_step m)
unfolding division_step
division_step_over k q m h g =
    let x = q * 2 ^ suc k in
    let half : x / 2 ≡ q * 2 ^ k = omega (arith, double_pow q k) in
    let even : x % 2 ≡ 0 = omega (arith, double_pow q k) in
    ap₂ (λ s b. bit_xor s (if b == 1 then 0xEDB88320 else 0))
      (bit_xor_half x m ∙ ap (λ s. bit_xor s (m / 2)) half)
      (bit_xor_low x m ∙ ap (λ b. differ b (m % 2)) even)
    ∙ bit_xor_assoc 32 (q * 2 ^ k) (m / 2) (if m % 2 == 1 then 0xEDB88320 else 0)
        (omega (arith, double_pow q k)) (omega arith)
        (if_elim (λ (n : ℕ). n < 2 ^ 32) (m % 2 == 1) 0xEDB88320 0 (λ e. omega arith)
          (λ e. omega arith))

divide_over :
    (k q m : ℕ)
    → q * 2 ^ k < 2 ^ 32
    → m < 2 ^ 32
    → divide k (bit_xor (q * 2 ^ k) m) ≡ bit_xor q (divide k m)
divide_over zero q m h g = ap (λ n. bit_xor n m) (omega arith)
divide_over (suc k) q m h g =
    ap (divide k) (division_step_over k q m h g)
    ∙ divide_over k q (division_step m) (omega (arith, double_pow q k)) (division_step-lt m g)

-- The byte that is taken in stands in the lower digits.
apart :
    (hash byte : ℕ)
    → byte < 2 ^ 8
    → bit_xor hash byte ≡ bit_xor (hash / 2 ^ 8 * 2 ^ 8) (bit_xor (hash % 2 ^ 8) byte)
apart hash byte b =
    let q = hash / 2 ^ 8 in
    let l = bit_xor (hash % 2 ^ 8) byte in
    ap (λ n. bit_xor n byte) (omega arith)
    ∙ bit_xor_fields 8 q (hash % 2 ^ 8) byte (omega arith) b
    ∙ ap (λ n. q * 2 ^ 8 + n) (sym (bit_xor_none l))
    ∙ sym (bit_xor_fields 8 q 0 l (omega arith) (bit_xor-lt 8 (hash % 2 ^ 8) byte (omega arith) b))
    ∙ ap (λ n. bit_xor n l) (omega arith)

-- A byte of the loop is eight steps of the division.
hash_byte-divide :
    (hash byte : ℕ)
    → hash < 2 ^ 32
    → byte < 2 ^ 8
    → hash_byte hash byte ≡ divide 8 (bit_xor hash byte)
unfolding hash_byte
hash_byte-divide hash byte h b =
    let q = hash / 2 ^ 8 in
    let l = bit_xor (hash % 2 ^ 8) byte in
    let small : l < 2 ^ 8 = bit_xor-lt 8 (hash % 2 ^ 8) byte (omega arith) b in
    ap₂ bit_xor (omega arith)
      (ap (λ x. get_or quality_table x 0) (bit_xor-byte hash byte b) ∙ quality_table-divide l small)
    ∙ sym (divide_over 8 q l (omega arith) (omega arith))
    ∙ ap (divide 8) (sym (apart hash byte b))

hash_byte-lt :
    (hash byte : ℕ) → hash < 2 ^ 32 → byte < 2 ^ 8 → divide 8 (bit_xor hash byte) < 2 ^ 32
hash_byte-lt hash byte h b =
    divide-lt 8 (bit_xor hash byte) (bit_xor-lt 32 hash byte h (omega arith))
  where
    divide-lt : (k n : ℕ) → n < 2 ^ 32 → divide k n < 2 ^ 32
    divide-lt zero n h = h
    divide-lt (suc k) n h = divide-lt k (division_step n) (division_step-lt n h)

hash_bytes-remainder :
    (bytes : Bytes) (hash : ℕ)
    → IsBytes bytes
    → hash < 2 ^ 32
    → hash_bytes hash bytes ≡ remainder hash bytes
hash_bytes-remainder [] hash o h = refl
hash_bytes-remainder (byte ∷ bytes) hash o h =
    ap (λ n. hash_bytes n bytes) (hash_byte-divide hash byte h o.0)
    ∙ hash_bytes-remainder bytes (divide 8 (bit_xor hash byte)) o.1 (hash_byte-lt hash byte h o.0)

-- The hash of fewer than 2^31 bytes is their CRC-32, with the polynomial 0xEDB88320: the table and its
-- indices come to the division digit by digit.
pub get_hash_code-crc32 :
    (s : Bytes) → IsBytes s → length s < 2 ^ 31 → get_hash_code (some s) (length s) ≡ done (crc32 s)
unfolding get_hash_code
get_hash_code-crc32 [] o h = refl
get_hash_code-crc32 (b ∷ s) o h =
    let n = length (b ∷ s) in
    let positive : is_negative n ≡ false = ground arith in
    let some_byte : (n == 0) ≡ false = ground arith in
    let inside : ltb n n ≡ false = ground arith in
    (λ i.
      let count = if positive i then text_length (b ∷ s) else n in
      if count == 0
      then done 0
      else if ltb n count
      then fault
      else done (bit_xor (hash_bytes 0xFFFFFFFF (take count (b ∷ s))) 0xFFFFFFFF))
    ∙ (λ i.
        if some_byte i
        then done 0
        else if inside i
        then fault
        else done (bit_xor (hash_bytes 0xFFFFFFFF (take n (b ∷ s))) 0xFFFFFFFF))
    ∙ ap (λ bytes. done (bit_xor (hash_bytes 0xFFFFFFFF bytes) 0xFFFFFFFF))
        (take-all n (b ∷ s) (omega arith))
    ∙ ap (λ hash. done (bit_xor hash 0xFFFFFFFF))
        (hash_bytes-remainder (b ∷ s) 0xFFFFFFFF o (omega arith))
