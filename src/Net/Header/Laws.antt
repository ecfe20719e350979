-- ===== src/Net/Header/Laws.antt =====
-- The header in memory and back.
use linux_stage_asio.Prelude.{ℕ, ◌^◌, ◌<◌, ◌≡◌, refl, Bool, true, false, ◌++◌, length, arith}
use linux_stage_asio.Prelude.Words.{Bytes, IsBytes}
use linux_stage_asio.Net.Header.{Header, IsHeader, encode, decode, header_size}

pub length-encode : (h : Header) → length (encode h) ≡ header_size
unfolding encode
length-encode h = refl

pub encode-IsBytes : (h : Header) → IsBytes (encode h)
unfolding encode
encode-IsBytes h = omega arith

decode-encode_cmd :
    (fk len cmd seq : ℕ) (c : Bool) (rest : Bytes)
    → cmd < 2 ^ 15
    → (decode
        (encode (record { fk = fk; len = len; cmd = cmd; compressed = c; seq = seq }) ++ rest)).cmd
      ≡ cmd
unfolding encode decode
decode-encode_cmd fk len cmd seq true rest h = omega arith
decode-encode_cmd fk len cmd seq false rest h = omega arith

decode-encode_compressed :
    (fk len cmd seq : ℕ) (c : Bool) (rest : Bytes)
    → cmd < 2 ^ 15
    → (decode (
        encode (record { fk = fk; len = len; cmd = cmd; compressed = c; seq = seq })
        ++ rest)).compressed
      ≡ c
unfolding encode decode
decode-encode_compressed fk len cmd seq true rest h = ground arith
decode-encode_compressed fk len cmd seq false rest h = ground arith

-- A header whose fields fit their widths is read back from its bytes, whatever follows them.
pub decode-encode : (h : Header) (rest : Bytes) → IsHeader h → decode (encode h ++ rest) ≡ h
unfolding encode decode
decode-encode h rest v = ground (
  arith,
  decode-encode_cmd h.fk h.len h.cmd h.seq h.compressed rest v.cmd_fits,
  decode-encode_compressed h.fk h.len h.cmd h.seq h.compressed rest v.cmd_fits,
)
