-- ===== src/Stage/Codec/Matching.antt =====
-- Two stage sockets with the same key material understand one another.
use linux_stage_asio.Prelude.{
  ℕ, ◌+◌, ◌^◌, ◌≤◌, ◌<◌, ◌≡◌, refl, ap, ◌∙◌, inl, inr, Bool, true, false, ◌&&◌, ◌||◌, some, ◌++◌,
  append-nil, arith, ltb, Bool-cases, length, take-all, drop-all, length-zero,
}
use linux_stage_asio.Prelude.Words.{Bytes, IsBytes}
use linux_stage_asio.Prelude.Outcome.{done}
use linux_stage_asio.Core.Segment.{unsafe_addr, contents}
use linux_stage_asio.Net.Message.{Message}
use linux_stage_asio.Net.Receiver.{write, Endpoint}
use linux_stage_asio.Net.Receiver.Frames.{segment_of, view}
use linux_stage_asio.Net.Packet.{Sender}
use linux_stage_asio.Net.Packet.Framing.{Matched}
use linux_stage_asio.Cipher.Rc4.{rc4_crypt}
use linux_stage_asio.Cipher.Rc4.RoundTrip.{rc4_crypt_twice}
use linux_stage_asio.Stage.Gzip.{Zlib, IsZlib, compress, decompress}
use linux_stage_asio.Stage.Gzip.Limits.{decompress-compress}
use linux_stage_asio.Stage.Codec.{Link, contains, encrypt_message, decrypt_message, refuses_null}

-- `StageSocket` as the sender and the receiver of packets, with key byte `kf`.
abbrev pub sender_of : Zlib → Link → ℕ → Sender
sender_of z l kf = record { kf = kf; encrypt = encrypt_message z l; null_refused = refuses_null l }

abbrev pub endpoint_of : Zlib → Link → ℕ → Bool → Endpoint
endpoint_of z l kf verify = record { kf = kf; verify = verify; decrypt = decrypt_message z l }

-- The length up to which a compressed message is decompressed again.
abbrev pub body_limit : ℕ
body_limit = 333_333_334

abbrev message_of : ℕ → ℕ → Bytes → Message
message_of cmd seq b = record { command_id = cmd; sequence_no = seq; payload = some (segment_of b) }

view-message_of :
    (cmd seq : ℕ) (b : Bytes) → length b < 2 ^ 31 → view (message_of cmd seq b) ≡ (cmd, seq, b)
unfolding contents unsafe_addr
view-message_of cmd seq b h = ground (arith, take-all (length b) b (omega arith), length-zero b)

write-all : (b c : Bytes) → length b ≡ length c → write b 0 c ≡ c
write-all b c h = ap (λ t. c ++ t) (drop-all (0 + length c) b (omega arith)) ∙ append-nil c

module _ (z : Zlib) (l : Link) (cmd seq : ℕ) where
  -- Deciphering a whole segment.
  decrypt_plain :
      (coded body : Bytes)
      → (l.transparent || contains l.transparent_protocol cmd) ≡ false
      → 0 < length coded
      → length coded < 2 ^ 31
      → length coded ≡ length body
      → rc4_crypt l.mod_vt l.key coded l.subtract false ≡ some body
      → decrypt_message z l (message_of cmd seq coded) false ≡ done (message_of cmd seq body)
  unfolding decrypt_message unsafe_addr
  decrypt_plain coded body t pos fits same dec =
      ground (arith, take-all (length coded) coded (omega arith), write-all coded body same)

  decrypt_compressed :
      (coded block body : Bytes)
      → (l.transparent || contains l.transparent_protocol cmd) ≡ false
      → 0 < length coded
      → length coded < 2 ^ 31
      → 0 < length body
      → length body < 2 ^ 31
      → rc4_crypt l.mod_vt l.key coded l.subtract false ≡ some block
      → decompress z block ≡ some body
      → decrypt_message z l (message_of cmd seq coded) true ≡ done (message_of cmd seq body)
  unfolding decrypt_message unsafe_addr
  decrypt_compressed coded block body t pos fits bpos bfits dec inf =
      ground (arith, take-all (length coded) coded (omega arith))

  encrypt_plain :
      (body coded : Bytes)
      → IsZlib z
      → (l.transparent || contains l.transparent_protocol cmd) ≡ false
      → (l.compressed_messages && ltb (length (z.deflate body)) (length body)) ≡ false
      → length body < body_limit
      → rc4_crypt l.mod_vt l.key body l.subtract true ≡ some coded
      → encrypt_message z l cmd body ≡ done (coded, false)
  unfolding encrypt_message compress
  encrypt_plain body coded law t no_gain fits enc = ground (arith, law.deflate-length body)

  encrypt_compressed :
      (body coded : Bytes)
      → IsZlib z
      → (l.transparent || contains l.transparent_protocol cmd) ≡ false
      → (l.compressed_messages && ltb (length (z.deflate body)) (length body)) ≡ true
      → length body < body_limit
      → rc4_crypt l.mod_vt l.key (z.deflate body) l.subtract true ≡ some coded
      → encrypt_message z l cmd body ≡ done (coded, true)
  unfolding encrypt_message compress
  encrypt_compressed body coded law t gain fits enc = ground (arith, law.deflate-length body)

  -- What `EncryptMessage` gives and `DecryptMessage` turns back.
  abbrev Undone : Bytes → Type 0
  Undone body =
      (coded : Bytes) × (compressed : Bool) × (m : Message) × (encrypt_message z l cmd body
        ≡ done (coded, compressed))
      × (0 < length coded)
      × (length coded < 2 ^ 31)
      × (decrypt_message z l (message_of cmd seq coded) compressed ≡ done m)
      × (view m ≡ (cmd, seq, body))

  module _ (law : IsZlib z) (body : Bytes) (pos : 0 < length body) (fits : length body < body_limit)
      (v : IsBytes body) where
    Undone-transparent : (l.transparent || contains l.transparent_protocol cmd) ≡ true → Undone body
    unfolding encrypt_message decrypt_message
    Undone-transparent t = (
      body,
      false,
      message_of cmd seq body,
      rw t refl,
      pos,
      omega arith,
      rw t refl,
      view-message_of cmd seq body (omega arith),
    )

    module _ (opaque : (l.transparent || contains l.transparent_protocol cmd) ≡ false)
        (m_pos : 0 < l.mod_vt) (m_fits : l.mod_vt ≤ 255) where
      Undone-plain :
          (l.compressed_messages && ltb (length (z.deflate body)) (length body)) ≡ false
          → Undone body
      Undone-plain no_gain =
          let (coded, enc, same, dec) =
            rc4_crypt_twice l.mod_vt l.key body l.subtract m_pos m_fits v in
          (
            coded,
            false,
            message_of cmd seq body,
            encrypt_plain body coded law opaque no_gain fits enc,
            omega arith,
            omega arith,
            decrypt_plain coded body opaque (omega arith) (omega arith) same dec,
            view-message_of cmd seq body (omega arith),
          )

      Undone-compressed :
          (l.compressed_messages && ltb (length (z.deflate body)) (length body)) ≡ true
          → Undone body
      Undone-compressed gain =
          let shrinks : length (z.deflate body) < length body = ground arith in
          let (coded, enc, same, dec) =
            rc4_crypt_twice l.mod_vt l.key (z.deflate body) l.subtract m_pos m_fits
              (law.deflate-IsBytes body v) in
          let (_, back) = decompress-compress z body law v (omega arith) (omega arith) in
          (
            coded,
            true,
            message_of cmd seq body,
            encrypt_compressed body coded law opaque gain fits enc,
            omega (arith, law.deflate-length body),
            omega arith,
            decrypt_compressed coded (z.deflate body) body opaque
                (omega (arith, law.deflate-length body)) (omega arith) pos (omega arith) dec back,
            view-message_of cmd seq body (omega arith),
          )

    undone_lem : 0 < l.mod_vt → l.mod_vt ≤ 255 → Undone body
    undone_lem m_pos m_fits =
        elim (Bool-cases (l.transparent || contains l.transparent_protocol cmd)) [
          | inl t ↦ Undone-transparent t
          | inr opaque ↦
              elim (Bool-cases
                (l.compressed_messages && ltb (length (z.deflate body)) (length body))) [
                  | inl gain ↦ Undone-compressed opaque m_pos m_fits gain
                  | inr no_gain ↦ Undone-plain opaque m_pos m_fits no_gain
                ]
        ]

-- With a zlib that keeps its documentation, two sockets with the same key material, the same key byte
-- and a modulus from 1 to 255 match, for bodies below a third
-- of the limit of decompression: what one enciphers the other turns back, whether the socket or
-- the command is transparent, and whether compression is on and makes the message smaller or not.
pub Link-Matched :
    (z : Zlib) (l : Link) (kf : ℕ)
    → IsZlib z
    → kf < 2 ^ 8
    → 0 < l.mod_vt
    → l.mod_vt ≤ 255
    → Matched body_limit (sender_of z l kf) (endpoint_of z l kf false)
Link-Matched z l kf law k pos fits = record {
  limit_fits = omega arith;
  same_key = refl;
  key_fits = k;
  no_mask = refl;
  undone = λ cmd seq body c p f v. undone_lem z l cmd seq law body p f v pos fits;
}
