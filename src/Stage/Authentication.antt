-- ===== src/Stage/Authentication.antt =====
-- stage/stage/model/AuthenticationAAA.h: the request and the response of the handshake, as bytes.
pub mod RoundTrip
use linux_stage_asio.Prelude.{ℕ, Option, none, some, [], ◌∷◌, ◌++◌, ◌==◌, if◌then◌else◌, length}
use linux_stage_asio.Prelude.Words.{u8, Bytes, put16, put32}
use linux_stage_asio.Prelude.Reader.{Reader, ◌>>=◌, give, fail, get8, get16, get32, get_bytes}

-- A counted text: `none` for the null pointer, which has the length 0xffff.
abbrev pub Text : Type 0
Text = Option Bytes

abbrev pub text_length : Text → ℕ
text_length none = 0xffff
text_length (some s) = length s

pub record Request : Type 0 where
  pub svr_area_no : ℕ
  pub server_no : ℕ
  pub platform : Text
  pub link_type : ℕ
  pub max_fd : ℕ

pub record Response : Type 0 where
  pub code : ℕ
  pub subtract : ℕ
  pub mod_vt : ℕ
  pub key : Text
  pub link_no : ℕ
  pub link_type : ℕ

abbrev pub write_text : Text → Bytes
write_text none = put16 0xffff
write_text (some s) = put16 (length s) ++ s

-- `NULL == this` is written first, as a byte that is 0.
unfoldable pub serialize_request : Request → Bytes
serialize_request r =
    0
    ∷ (put16 r.svr_area_no
        ++ (put16 r.server_no ++ (write_text r.platform ++ (u8 r.link_type ∷ put16 r.max_fd))))

unfoldable pub serialize_response : Response → Bytes
serialize_response r =
    0
    ∷ (put16 r.code
        ++ (u8 r.subtract
            ∷ (u8 r.mod_vt ∷ (write_text r.key ++ (put32 r.link_no ++ u8 r.link_type ∷ [])))))

-- The length, then the text: 0xffff for a null pointer, 0 for an empty text.
abbrev pub text_of : ℕ → Reader Text
text_of len =
    if len == 0xffff
    then give none
    else if len == 0
    then give (some [])
    else get_bytes len >>= λ (s : Bytes). give (some s)

abbrev pub if_present : {A : Type 0} → ℕ → Reader A → Reader A
if_present flag next = if flag == 0 then next else fail

-- Against the rest of the block that is not read.
unfoldable pub deserialize_request : Reader Request
deserialize_request = do
  flag ← get8
  if_present flag (do
    svr_area_no ← get16
    server_no ← get16
    len ← get16
    platform ← text_of len
    link_type ← get8
    max_fd ← get16
    give (record {
      svr_area_no = svr_area_no;
      server_no = server_no;
      platform = platform;
      link_type = link_type;
      max_fd = max_fd;
    }))

unfoldable pub deserialize_response : Reader Response
deserialize_response = do
  flag ← get8
  if_present flag (do
    code ← get16
    subtract ← get8
    mod_vt ← get8
    len ← get16
    key ← text_of len
    link_no ← get32
    link_type ← get8
    give (record {
      code = code;
      subtract = subtract;
      mod_vt = mod_vt;
      key = key;
      link_no = link_no;
      link_type = link_type;
    }))
