-- ===== src/Cipher/Rc4/RoundTrip.antt =====
-- Decryption undoes encryption.
use linux_stage_asio.Prelude.{
  ℕ, suc, ◌+◌, ◌-◌, ◌%◌, ◌^◌, ◌≤◌, ◌<◌, ◌≡◌, refl, ap, ap₂, ◌∙◌, Bool, true, false, some, [], ◌∷◌,
  length, arith,
}
use linux_stage_asio.Prelude.Words.{Bytes, IsBytes, u8, u32}
use linux_stage_asio.Prelude.Bits.{bit_xor-lt, bit_xor_twice, bit_xor-byte}
use linux_stage_asio.Cipher.Rc4.{crypt_byte, crypt_from, rc4_sbox, rc4_crypt, no_box, subtrahend}
use linux_stage_asio.Cipher.Rc4.Box.{get_or-IsBytes, exchange-IsBytes, rc4_sbox-IsBytes}
use Prim.Native.Nat.{bit_xor}

-- The two subtrahends cancel.
crypt_byte_twice :
    (x y k b : ℕ)
    → x < 256
    → y < 256
    → (x + y) % 256 ≡ 0
    → k < 256
    → b < 256
    → crypt_byte false y k (crypt_byte true x k b) ≡ b
unfolding crypt_byte
crypt_byte_twice x y k b hx hy h hk hb =
    bit_xor-byte (u32 (u8 (bit_xor b k + 2 ^ 32 - x) + 2 ^ 32 - y)) k hk
    ∙ ap (λ t. bit_xor t k) (omega (arith, bit_xor-lt 8 b k hb hk))
    ∙ bit_xor_twice 8 b k hb hk

crypt_from_twice :
    (bs : Bytes) (m x y : ℕ) (box : Bytes) (i low high : ℕ)
    → x < 256
    → y < 256
    → (x + y) % 256 ≡ 0
    → IsBytes box
    → IsBytes bs
    → crypt_from false m y box i low high (crypt_from true m x box i low high bs) ≡ bs
unfolding crypt_from
crypt_from_twice [] m x y box i low high hx hy h v w = refl
crypt_from_twice (b ∷ bs) m x y box i low high hx hy h v w =
    ap₂ ◌∷◌ (crypt_byte_twice x y _ b hx hy h (get_or-IsBytes _ _ (exchange-IsBytes box _ _ v)) w.0)
      (crypt_from_twice bs m x y _ (suc i) _ _ hx hy h (exchange-IsBytes box _ _ v) w.1)

length-crypt_from :
    (bs : Bytes) (encrypting : Bool) (m x : ℕ) (box : Bytes) (i low high : ℕ)
    → length (crypt_from encrypting m x box i low high bs) ≡ length bs
unfolding crypt_from
length-crypt_from [] encrypting m x box i low high = refl
length-crypt_from (b ∷ bs) encrypting m x box i low high =
    ap suc (length-crypt_from bs encrypting m x _ (suc i) _ _)

-- For every modulus from 1 to 255, every key and every subtrahend, encryption of a block of bytes
-- gives a block of the same length, which decryption with the same parameters turns back.
pub rc4_crypt_twice :
    (m : ℕ) (key data_block : Bytes) (subtract : ℕ)
    → 0 < m
    → m ≤ 255
    → IsBytes data_block
    → (cipher : Bytes) × (rc4_crypt m key data_block subtract true ≡ some cipher)
      × (length cipher ≡ length data_block)
      × (rc4_crypt m key cipher subtract false ≡ some data_block)
unfolding rc4_crypt
rc4_crypt_twice m [] data_block subtract pos fits v = (data_block, refl, refl, refl)
rc4_crypt_twice m (k ∷ key) [] subtract pos fits v = ([], ground arith, refl, ground arith)
rc4_crypt_twice m (k ∷ key) (b ∷ bs) subtract pos fits v =
    let box = rc4_sbox m no_box (k ∷ key) in
    let x = subtrahend true subtract in
    let y = subtrahend false subtract in
    (
      crypt_from true m x box 0 0 0 (b ∷ bs),
      ground arith,
      length-crypt_from (b ∷ bs) true m x box 0 0 0,
      ground (
        arith,
        crypt_from_twice (b ∷ bs) m x y box 0 0 0 (omega arith) (omega arith) (omega arith)
            (rc4_sbox-IsBytes m no_box (k ∷ key) tt) v,
      ),
    )
