-- ===== src/Tests/Ciphers.antt =====
-- The cipher and the compression on concrete values.
use linux_stage_asio.Prelude.{
  ◌≡◌, refl, sym, subst, inl, inr, Bool, true, false, ◌&&◌, Option, none, some, [], ◌∷◌, ◌++◌,
  arith, ◌==◌, if◌then◌else◌, Bool-cases, length,
}
use linux_stage_asio.Prelude.Words.{Bytes, IsBytes}
use linux_stage_asio.Cipher.Rc4.{rc4_crypt, rc4_sbox}
use linux_stage_asio.Cipher.Rc4.Box.{count, rc4_sbox-count}
use linux_stage_asio.Cipher.Rc4.RoundTrip.{rc4_crypt_twice}
use linux_stage_asio.Stage.Gzip.{Zlib, IsZlib, compress, decompress}
use linux_stage_asio.Stage.Gzip.Limits.{decompress-compress}
use linux_stage_asio.Stage.Authentication.{
  Response, serialize_request, serialize_response, deserialize_request, deserialize_response,
}
use linux_stage_asio.Stage.Authentication.RoundTrip.{
  IsResponse, deserialize_request-serialize_request, deserialize_response-serialize_response,
}
use linux_stage_asio.Tests.Links.{a_request, a_request-IsRequest}

rc4_sbox-count_example : count 5 (rc4_sbox 200 (9 ∷ []) (11 ∷ 22 ∷ [])) ≡ 1
rc4_sbox-count_example =
    rc4_sbox-count 200 (9 ∷ []) (11 ∷ 22 ∷ []) 5 (omega arith) (omega arith) (omega arith)

-- The early return: an empty key leaves the box alone.
rc4_sbox_no_key : rc4_sbox 200 (9 ∷ 8 ∷ []) [] ≡ 9 ∷ 8 ∷ []
unfolding rc4_sbox
rc4_sbox_no_key = refl

rc4_crypt_twice_example :
    (cipher : Bytes) × (rc4_crypt 7 (11 ∷ 22 ∷ []) (65 ∷ 255 ∷ []) 3 true ≡ some cipher)
    × (length cipher ≡ 2)
    × (rc4_crypt 7 (11 ∷ 22 ∷ []) cipher 3 false ≡ some (65 ∷ 255 ∷ []))
rc4_crypt_twice_example =
    rc4_crypt_twice 7 (11 ∷ 22 ∷ []) (65 ∷ 255 ∷ []) 3 (omega arith) (omega arith)
      (omega arith, (omega arith, tt))

-- A compression that has one short form, for the text `AA`, and puts a byte in front of any other.
abbrev is_common : Bytes → Bool
is_common [] = false
is_common (a ∷ []) = false
is_common (a ∷ b ∷ []) = a == 65 && b == 65
is_common (a ∷ b ∷ c ∷ rest) = false

abbrev short_deflate : Bytes → Bytes
short_deflate block = if is_common block then 1 ∷ [] else 0 ∷ block

abbrev short_inflate : Bytes → Option Bytes
short_inflate [] = none
short_inflate (tag ∷ rest) = if tag == 1 then some (65 ∷ 65 ∷ []) else some rest

abbrev short_zlib : Zlib
short_zlib = record { deflate = short_deflate; inflate = short_inflate }

inflate-deflate_short : (block : Bytes) → short_inflate (short_deflate block) ≡ some block
inflate-deflate_short [] = refl
inflate-deflate_short (a ∷ []) = refl
inflate-deflate_short (a ∷ b ∷ []) = ground arith
inflate-deflate_short (a ∷ b ∷ c ∷ rest) = refl

deflate_short-IsBytes : (block : Bytes) → IsBytes block → IsBytes (short_deflate block)
deflate_short-IsBytes block v = elim (Bool-cases (is_common block)) [
  | inl common ↦
      subst (λ b. IsBytes (if b then 1 ∷ [] else 0 ∷ block)) (sym common) (omega arith, tt)
  | inr other ↦ subst (λ b. IsBytes (if b then 1 ∷ [] else 0 ∷ block)) (sym other) (omega arith, v)
]

short_zlib-IsZlib : IsZlib short_zlib
short_zlib-IsZlib = record {
  inflate-deflate = λ b v. inflate-deflate_short b;
  deflate-length = λ b. ground arith;
  deflate-IsBytes = λ b v. deflate_short-IsBytes b v;
}

decompress-compress_example :
    (compress short_zlib (65 ∷ 65 ∷ []) ≡ some (1 ∷ []))
    × (decompress short_zlib (1 ∷ []) ≡ some (65 ∷ 65 ∷ []))
decompress-compress_example =
    decompress-compress short_zlib (65 ∷ 65 ∷ []) short_zlib-IsZlib (omega arith, (omega arith, tt))
      (omega arith) (omega arith)

deserialize_request-serialize_request_example :
    deserialize_request (serialize_request a_request ++ 1 ∷ 2 ∷ []) ≡ some (a_request, 1 ∷ 2 ∷ [])
deserialize_request-serialize_request_example =
    deserialize_request-serialize_request a_request (1 ∷ 2 ∷ []) a_request-IsRequest

abbrev a_response : Response
a_response = record { code = 0; subtract = 3; mod_vt = 7; key = none; link_no = 5; link_type = 4 }

a_response-IsResponse : IsResponse a_response
a_response-IsResponse = record {
  code_fits = omega arith;
  subtract_fits = omega arith;
  mod_vt_fits = omega arith;
  key_fits = tt;
  link_no_fits = omega arith;
  link_type_fits = omega arith;
}

deserialize_response-serialize_response_example :
    deserialize_response (serialize_response a_response ++ []) ≡ some (a_response, [])
deserialize_response-serialize_response_example =
    deserialize_response-serialize_response a_response [] a_response-IsResponse
