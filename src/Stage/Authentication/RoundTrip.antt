-- ===== src/Stage/Authentication/RoundTrip.antt =====
-- What is serialized is read back, and the bytes behind it are left.
use linux_stage_asio.Prelude.{
  ℕ, ◌/◌, ◌^◌, ◌<◌, ◌≡◌, refl, ◌∙◌, none, some, [], ◌∷◌, ◌++◌, append_assoc, arith, length,
}
use linux_stage_asio.Prelude.Words.{u8, Bytes, put16, put32, word16}
use linux_stage_asio.Prelude.Reader.{Reader, ◌>>=◌, get16, get_bytes-append}
use linux_stage_asio.Stage.Authentication.{
  Text, Request, Response, write_text, serialize_request, serialize_response, text_of,
  deserialize_request, deserialize_response,
}

-- A text whose length is not taken for the null pointer.
abbrev pub TextFits : Text → Type 0
TextFits none = Unit
TextFits (some s) = length s < 0xffff

pub record IsRequest (r : Request) : Type 0 where
  pub svr_area_no_fits : r.svr_area_no < 2 ^ 16
  pub server_no_fits : r.server_no < 2 ^ 16
  pub platform_fits : TextFits r.platform
  pub link_type_fits : r.link_type < 2 ^ 8
  pub max_fd_fits : r.max_fd < 2 ^ 16

pub record IsResponse (r : Response) : Type 0 where
  pub code_fits : r.code < 2 ^ 16
  pub subtract_fits : r.subtract < 2 ^ 8
  pub mod_vt_fits : r.mod_vt < 2 ^ 8
  pub key_fits : TextFits r.key
  pub link_no_fits : r.link_no < 2 ^ 32
  pub link_type_fits : r.link_type < 2 ^ 8

abbrev read_text : Reader Text
read_text = get16 >>= text_of

read_text-write_text :
    (t : Text) (rest : Bytes) → TextFits t → read_text (write_text t ++ rest) ≡ some (t, rest)
read_text-write_text none rest f = refl
read_text-write_text (some []) rest f = refl
read_text-write_text (some (c ∷ cs)) rest f =
    let len : word16 (u8 (length (c ∷ cs))) (u8 (length (c ∷ cs) / 2 ^ 8)) ≡ length (c ∷ cs) =
      omega arith in
    ground (arith, len, get_bytes-append (c ∷ cs) rest)

read_text-then :
    {A : Type 0} (t : Text) (rest : Bytes) (f : Text → Reader A)
    → TextFits t
    → (get16 >>= λ (len : ℕ). text_of len >>= f) (write_text t ++ rest) ≡ f t rest
read_text-then t rest f fits = ground (arith, read_text-write_text t rest fits)

-- A request whose fields fit their widths is read back from its bytes, and exactly its bytes are
-- consumed, whatever follows them.
pub deserialize_request-serialize_request :
    (r : Request) (rest : Bytes)
    → IsRequest r
    → deserialize_request (serialize_request r ++ rest) ≡ some (r, rest)
unfolding deserialize_request serialize_request
deserialize_request-serialize_request r rest v =
    rw (append_assoc (write_text r.platform) (u8 r.link_type ∷ put16 r.max_fd) rest) (
      read_text-then r.platform (u8 r.link_type ∷ (put16 r.max_fd ++ rest)) _ v.platform_fits
      ∙ ground (arith, v.svr_area_no_fits, v.server_no_fits, v.link_type_fits, v.max_fd_fits))

-- A response whose fields fit their widths is read back from its bytes, and exactly its bytes are
-- consumed, whatever follows them.
pub deserialize_response-serialize_response :
    (r : Response) (rest : Bytes)
    → IsResponse r
    → deserialize_response (serialize_response r ++ rest) ≡ some (r, rest)
unfolding deserialize_response serialize_response
deserialize_response-serialize_response r rest v =
    rw (append_assoc (write_text r.key) (put32 r.link_no ++ u8 r.link_type ∷ []) rest) (
      read_text-then r.key (put32 r.link_no ++ u8 r.link_type ∷ rest) _ v.key_fits
      ∙ ground
          (arith, v.code_fits, v.subtract_fits, v.mod_vt_fits, v.link_no_fits, v.link_type_fits))
