-- ===== src/Uuid/Guid/Digits.antt =====
-- uuid/Guid.cpp and Guid.h: `HexToNumber` on what `%08x`, `%04x` and `%02x` print.
use linux_stage_asio.Prelude.{
  ℕ, zero, suc, ◌+◌, ◌-◌, ◌*◌, ◌/◌, ◌%◌, ◌^◌, ◌<◌, ◌≡◌, refl, sym, ap, subst, ◌∙◌, [], ◌∷◌, ◌++◌,
  append_assoc, arith, length,
}
use linux_stage_asio.Prelude.Words.{Bytes, IsBytes}
use native.Mathlib.Nat.{pow-suc}
use linux_stage_asio.Uuid.Guid.{
  print_hex, hex_char, print_bytes, separator, digit, other, char_kind, hex_from, hex_to_number,
  read_bytes,
}

char_kind-hex_char : (d : ℕ) → d < 16 → char_kind (hex_char d) ≡ digit d
char_kind-hex_char d h = ground arith

-- `k + j` by the digits.
abbrev plus : ℕ → ℕ → ℕ
plus zero j = j
plus (suc k) j = plus k (suc j)

hex_from_digit :
    (bits left nu d ch : ℕ) (stream : Bytes)
    → char_kind ch ≡ digit d
    → hex_from bits (suc left) nu (ch ∷ stream)
      ≡ hex_from bits left ((nu * 16 + d) % 2 ^ bits) stream
unfolding hex_from
hex_from_digit bits left nu d ch stream e = λ i. elim (e i) [
  | separator ↦ hex_from bits (suc left) nu stream
  | digit d ↦ hex_from bits left ((nu * 16 + d) % 2 ^ bits) stream
  | other ↦ (nu, stream)
]

whole : (n m : ℕ) → n < m → (n / 16 * 16 + n % 16) % m ≡ n
whole n m h = grind arith

hex_from-print_hex :
    (k bits left n : ℕ) (rest : Bytes)
    → n < 16 ^ k
    → n < 2 ^ bits
    → hex_from bits (plus k left) 0 (print_hex k n ++ rest) ≡ hex_from bits left n rest
hex_from-print_hex zero bits left n rest h b = ap (λ m. hex_from bits left m rest) (omega arith)
hex_from-print_hex (suc k) bits left n rest h b =
    let small : n / 16 < 16 ^ k = omega (arith, pow-suc 16 k) in
    ap (hex_from bits (plus k (suc left)) 0)
      (append_assoc (print_hex k (n / 16)) (hex_char (n % 16) ∷ []) rest)
    ∙ hex_from-print_hex k bits (suc left) (n / 16) (hex_char (n % 16) ∷ rest) small (omega arith)
    ∙ hex_from_digit bits left (n / 16) (n % 16) (hex_char (n % 16)) rest
        (char_kind-hex_char (n % 16) (omega arith))
    ∙ ap (λ m. hex_from bits left m rest) (whole n (2 ^ bits) b)

hex_from-zero : (bits n : ℕ) (rest : Bytes) → hex_from bits 0 n rest ≡ (n, rest)
unfolding hex_from
hex_from-zero bits n rest = refl

hex_from_end : (bits left nu : ℕ) → hex_from bits (suc left) nu [] ≡ (nu, [])
unfolding hex_from
hex_from_end bits left nu = refl

hex_from_separator :
    (bits left nu ch : ℕ) (stream : Bytes)
    → char_kind ch ≡ separator
    → hex_from bits (suc left) nu (ch ∷ stream) ≡ hex_from bits (suc left) nu stream
unfolding hex_from
hex_from_separator bits left nu ch stream e = λ i. elim (e i) [
  | separator ↦ hex_from bits (suc left) nu stream
  | digit d ↦ hex_from bits left ((nu * 16 + d) % 2 ^ bits) stream
  | other ↦ (nu, stream)
]

positive : (size : ℕ) → 0 < size → 2 * size ≡ suc (2 * size - 1)
positive size h = omega arith

-- The digits are those of one `%0...x`.
hex_to_number-any :
    (size : ℕ) (stream : Bytes)
    → 0 < size
    → hex_to_number size stream ≡ hex_from (8 * size) (2 * size) 0 stream
unfolding hex_to_number
hex_to_number-any size [] h =
    subst (λ left. (0, []) ≡ hex_from (8 * size) left 0 []) (sym (positive size h))
      (sym (hex_from_end (8 * size) (2 * size - 1) 0))
hex_to_number-any size (ch ∷ stream) h = refl

pub read_byte :
    (n : ℕ) (rest : Bytes) → n < 2 ^ 8 → hex_to_number 1 (print_hex 2 n ++ rest) ≡ (n, rest)
read_byte n rest h =
    hex_to_number-any 1 (print_hex 2 n ++ rest) (omega arith)
    ∙ hex_from-print_hex 2 8 0 n rest (omega arith) h
    ∙ hex_from-zero 8 n rest

pub read_short :
    (n : ℕ) (rest : Bytes) → n < 2 ^ 16 → hex_to_number 2 (print_hex 4 n ++ rest) ≡ (n, rest)
read_short n rest h =
    hex_to_number-any 2 (print_hex 4 n ++ rest) (omega arith)
    ∙ hex_from-print_hex 4 16 0 n rest (omega arith) h
    ∙ hex_from-zero 16 n rest

pub read_word :
    (n : ℕ) (rest : Bytes) → n < 2 ^ 32 → hex_to_number 4 (print_hex 8 n ++ rest) ≡ (n, rest)
read_word n rest h =
    hex_to_number-any 4 (print_hex 8 n ++ rest) (omega arith)
    ∙ hex_from-print_hex 8 32 0 n rest (omega arith) h
    ∙ hex_from-zero 32 n rest

-- A separator in front is passed over.
pub hex_to_number-separator :
    (size ch : ℕ) (stream : Bytes)
    → 0 < size
    → char_kind ch ≡ separator
    → hex_to_number size (ch ∷ stream) ≡ hex_to_number size stream
unfolding hex_to_number
hex_to_number-separator size ch stream h e =
    subst (λ left. hex_from (8 * size) left 0 (ch ∷ stream) ≡ hex_from (8 * size) left 0 stream)
      (sym (positive size h)) (hex_from_separator (8 * size) (2 * size - 1) 0 ch stream e)
    ∙ sym (hex_to_number-any size stream h)

-- The bytes behind one another.
abbrev pub more : ℕ → ℕ → ℕ
more zero m = m
more (suc k) m = suc (more k m)

pub read_bytes-print_bytes :
    (ns rest : Bytes) (m : ℕ)
    → IsBytes ns
    → read_bytes (more (length ns) m) (print_bytes ns ++ rest) ≡ ns ++ read_bytes m rest
unfolding read_bytes
read_bytes-print_bytes [] rest m h = refl
read_bytes-print_bytes (n ∷ ns) rest m h =
    ap (λ (r : ℕ × Bytes). r.0 ∷ read_bytes (more (length ns) m) r.1)
      (ap (hex_to_number 1) (append_assoc (print_hex 2 n) (print_bytes ns) rest)
        ∙ read_byte n (print_bytes ns ++ rest) h.0)
    ∙ ap (λ r. n ∷ r) (read_bytes-print_bytes ns rest m h.1)

pub read_bytes-separator :
    (m ch : ℕ) (stream : Bytes)
    → char_kind ch ≡ separator
    → read_bytes (suc m) (ch ∷ stream) ≡ read_bytes (suc m) stream
unfolding read_bytes
read_bytes-separator m ch stream e =
    ap (λ (r : ℕ × Bytes). r.0 ∷ read_bytes m r.1)
      (hex_to_number-separator 1 ch stream (omega arith) e)
