-- ===== src/Net/Header.antt =====
-- `socket_packet_hdrc` of stage/net/Message.h: 11 packed bytes, little-endian as on x86-64, with
-- `cmd` in the low 15 bits and `compressed` in the top bit of one 16-bit word. `plsz` and `mask`
-- are the halves of `len`, with which they share a union.
pub mod Laws
use linux_stage_asio.Prelude.{
  ℕ, ◌+◌, ◌/◌, ◌%◌, ◌^◌, ◌<◌, Bool, [], ◌∷◌, ◌++◌, ◌==◌, if◌then◌else◌, get_or,
}
use linux_stage_asio.Prelude.Words.{Bytes, u8, u16, put16, put32, word16, word32}

pub record Header : Type 0 where
  pub fk : ℕ
  pub len : ℕ
  pub cmd : ℕ
  pub compressed : Bool
  pub seq : ℕ

-- sizeof(socket_packet_hdrc)
abbrev pub header_size : ℕ
header_size = 11

abbrev pub plsz : Header → ℕ
plsz h = u16 h.len

abbrev pub mask : Header → ℕ
mask h = h.len / 2 ^ 16

-- The header in memory. A store into a field keeps its low bits.
unfoldable pub encode : Header → Bytes
encode h =
    u8 h.fk
    ∷ (put32 h.len
        ++ (put16 (h.cmd % 2 ^ 15 + (if h.compressed then 2 ^ 15 else 0)) ++ put32 h.seq))

-- The header that 11 bytes of memory hold.
unfoldable pub decode : Bytes → Header
decode b = record {
  fk = get_or b 0 0;
  len = word32 (get_or b 1 0) (get_or b 2 0) (get_or b 3 0) (get_or b 4 0);
  cmd = word16 (get_or b 5 0) (get_or b 6 0) % 2 ^ 15;
  compressed = (get_or b 6 0 / 2 ^ 7) == 1;
  seq = word32 (get_or b 7 0) (get_or b 8 0) (get_or b 9 0) (get_or b 10 0);
}

-- Each field fits its width.
pub record IsHeader (h : Header) : Type 0 where
  pub fk_fits : h.fk < 2 ^ 8
  pub len_fits : h.len < 2 ^ 32
  pub cmd_fits : h.cmd < 2 ^ 15
  pub seq_fits : h.seq < 2 ^ 32
