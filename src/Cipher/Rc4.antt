-- ===== src/Cipher/Rc4.antt =====
-- stage/cipher/RC4.cpp. `mod` is the size of the box that is used, of the 255 bytes that the code
-- reserves; the entries from `mod` on are never read and have no place here. Indices and sums are
-- small `int`s. A null or empty key leaves the data alone, as the early return does; `none` stands
-- for the undefined behaviour of a `mod` of 0 (`% 0`) or above 255 (the box overruns).
pub mod Box
pub mod RoundTrip
use linux_stage_asio.Prelude.{
  ℕ, zero, suc, ◌+◌, ◌-◌, ◌%◌, ◌^◌, Bool, true, false, ◌||◌, Option, none, some, [], ◌∷◌, ltb, ◌==◌,
  if◌then◌else◌, get_or, set, length,
}
use linux_stage_asio.Prelude.Words.{Bytes, u8, u32}
use Prim.Native.Nat.{bit_xor}

-- `box[i] = (unsigned char)i` for `n` entries from `i` on.
unfoldable pub init_from : ℕ → ℕ → Bytes
init_from zero i = []
init_from (suc n) i = u8 i ∷ init_from n (suc i)

-- `b = box[i]; box[i] = box[j]; box[j] = b`
abbrev pub exchange : Bytes → ℕ → ℕ → Bytes
exchange box i j = set (set box i (get_or box j 0)) j (get_or box i 0)

-- The second loop of `rc4_sbox`, with `n` rounds left.
unfoldable pub mix : ℕ → ℕ → Bytes → ℕ → ℕ → Bytes → Bytes
mix m zero key i j box = box
mix m (suc n) key i j box =
    let j' = (j + get_or box i 0 + get_or key (i % length key) 0) % m in
    mix m n key (suc i) j' (exchange box i j')

-- Without a key the box keeps what it held. A box and a key that are no null pointers are taken.
unfoldable pub rc4_sbox : ℕ → Bytes → Bytes → Bytes
rc4_sbox m box key = if length key == 0 then box else mix m m key 0 0 (init_from m 0)

-- One byte: `(data ^ k) - x` when encrypting, `(data - x) ^ k` when decrypting, cut to a byte.
unfoldable pub crypt_byte : Bool → ℕ → ℕ → ℕ → ℕ
crypt_byte true x k b = u8 (bit_xor b k + 2 ^ 32 - x)
crypt_byte false x k b = u8 (bit_xor (u32 (b + 2 ^ 32 - x)) k)

-- The loop of `rc4_crypt`. `low` is only ever reduced, never incremented.
unfoldable pub crypt_from : Bool → ℕ → ℕ → Bytes → ℕ → ℕ → ℕ → Bytes → Bytes
crypt_from encrypting m x box i low high [] = []
crypt_from encrypting m x box i low high (b ∷ bs) =
    let low' = low % m in
    let high' = (high + get_or box (i % m) 0) % m in
    let box' = exchange box low' high' in
    let mid = (get_or box' low' 0 + get_or box' high' 0) % m in
    crypt_byte encrypting x (get_or box' mid 0) b
    ∷ crypt_from encrypting m x box' (suc i) low' high' bs

-- `(unsigned char)(E ? subtract : -subtract)`
abbrev pub subtrahend : Bool → ℕ → ℕ
subtrahend encrypting subtract = u8 (if encrypting then subtract else u32 (2 ^ 32 - u32 subtract))

-- What the box holds before `rc4_sbox` fills it: the code leaves it uninitialised.
abbrev pub no_box : Bytes
no_box = []

unfoldable pub rc4_crypt : ℕ → Bytes → Bytes → ℕ → Bool → Option Bytes
unfolding rc4_sbox crypt_from
rc4_crypt m key data_block subtract encrypting =
    if length key == 0 || length data_block == 0
    then some data_block
    else if m == 0 || ltb 255 m
    then none
    else some (
        crypt_from encrypting m (subtrahend encrypting subtract) (rc4_sbox m no_box key) 0 0 0
          data_block)
