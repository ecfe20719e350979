-- ===== src/Net/Packet/Framing.antt =====
-- The packet of one message is a frame that the other side takes.
use linux_stage_asio.Prelude.{
  ℕ, ◌^◌, ◌≤◌, ◌<◌, ◌≡◌, refl, sym, ap, subst, ◌∙◌, ◌⊎◌, inl, inr, Bool, false, none, some, [], ◌∷◌,
  arith, length, take-all, length-zero,
}
use linux_stage_asio.Prelude.Words.{u16, Bytes, IsBytes}
use linux_stage_asio.Prelude.Outcome.{done}
use linux_stage_asio.Core.Segment.{unsafe_addr, contents}
use linux_stage_asio.Net.Message.{Message}
use linux_stage_asio.Net.Header.{Header}
use linux_stage_asio.Net.Receiver.{Endpoint}
use linux_stage_asio.Net.Receiver.Frames.{Frame, Accepts, view, segment_of, frame_bytes, Means}
use linux_stage_asio.Net.Packet.{Sender, to_packet, assemble}

-- What the sender's `EncryptMessage` makes of a body is turned back by the receiver's
-- `DecryptMessage`, up to a limit on its length. Both sides have the same key byte, and no mask is asked for.
pub record Matched (limit : ℕ) (s : Sender) (e : Endpoint) : Type 0 where
  pub limit_fits : limit ≤ 2 ^ 31
  pub same_key : s.kf ≡ e.kf
  pub key_fits : s.kf < 2 ^ 8
  pub no_mask : e.verify ≡ false
  pub undone :
      (cmd seq : ℕ) (body : Bytes)
      → cmd < 2 ^ 15
      → 0 < length body
      → length body < limit
      → IsBytes body
      → (coded : Bytes) × (compressed : Bool) × (m : Message) × (s.encrypt cmd body
          ≡ done (coded, compressed))
        × (0 < length coded)
        × (length coded < 2 ^ 31)
        × (e.decrypt
              (record { command_id = cmd; sequence_no = seq; payload = some (segment_of coded) })
              compressed
            ≡ done m)
        × (view m ≡ (cmd, seq, body))

-- A message that fits the header: its payload, if it has one, is a whole buffer of bytes.
pub record Sendable (limit : ℕ) (m : Message) : Type 0 where
  pub cmd_fits : m.command_id < 2 ^ 15
  pub seq_fits : m.sequence_no < 2 ^ 32
  pub body : Bytes
  pub payload_is : (m.payload ≡ some (segment_of body)) ⊎ ((m.payload ≡ none) × (body ≡ []))
  pub body_fits : length body < limit
  pub body_bytes : IsBytes body

-- The sender's packet is a frame that the receiver is bound to take for the message.
pub record Framed (s : Sender) (e : Endpoint) (m : Message) : Type 0 where
  pub frame : Frame
  pub accepted : Accepts e frame
  pub packed : to_packet s m ≡ done (frame_bytes frame)
  pub viewed : view frame.message ≡ view m

to_packet_empty :
    (s : Sender) (m : Message)
    → (m.payload ≡ some (segment_of [])) ⊎ (m.payload ≡ none)
    → to_packet s m ≡ done (assemble s m.command_id m.sequence_no false [])
unfolding to_packet unsafe_addr
to_packet_empty s m h = ground arith

to_packet_body :
    (s : Sender) (m : Message) (body coded : Bytes) (compressed : Bool)
    → m.payload ≡ some (segment_of body)
    → m.command_id < 2 ^ 15
    → 0 < length body
    → length body < 2 ^ 31
    → s.encrypt m.command_id body ≡ done (coded, compressed)
    → to_packet s m ≡ done (assemble s m.command_id m.sequence_no compressed coded)
unfolding to_packet unsafe_addr
to_packet_body s m body coded compressed p c pos fits enc =
    let whole = take-all (length body) body (omega arith) in
    let narrow : u16 m.command_id ≡ m.command_id = omega arith in ground (arith, whole, narrow)

payload_view :
    (m : Message) (body : Bytes)
    → (m.payload ≡ some (segment_of body)) ⊎ ((m.payload ≡ none) × (body ≡ []))
    → length body < 2 ^ 31
    → view m ≡ (m.command_id, m.sequence_no, body)
unfolding contents
payload_view m body h fits =
    ground (arith, take-all (length body) body (omega arith), length-zero body)

module _ (limit : ℕ) (s : Sender) (e : Endpoint) (k : Matched limit s e) where
  abbrev header_of : ℕ → ℕ → Bool → Bytes → Header
  header_of cmd seq compressed coded = record {
    fk = s.kf;
    len = length coded;
    cmd = cmd;
    compressed = compressed;
    seq = seq;
  }

  header_of-Accepts :
      (cmd seq : ℕ) (compressed : Bool) (coded : Bytes) (m : Message)
      → cmd < 2 ^ 15
      → seq < 2 ^ 32
      → length coded < 2 ^ 31
      → Means e (header_of cmd seq compressed coded) coded m
      → Accepts e
          (record { header = header_of cmd seq compressed coded; body = coded; message = m })
  header_of-Accepts cmd seq compressed coded m c q l means = record {
    is_header = record { fk_fits = k.key_fits; len_fits = omega arith; cmd_fits = c; seq_fits = q };
    key = k.same_key;
    size = rw k.no_mask refl;
    size_fits = l;
    masked = rw k.no_mask refl;
    checked = rw k.no_mask refl;
    means = means;
  }

  coded_Means :
      (cmd seq : ℕ) (compressed : Bool) (coded : Bytes) (m : Message)
      → 0 < length coded
      → e.decrypt
          (record { command_id = cmd; sequence_no = seq; payload = some (segment_of coded) })
          compressed
        ≡ done m
      → Means e (header_of cmd seq compressed coded) coded m
  coded_Means cmd seq compressed [] m pos dec = absurd (omega arith)
  coded_Means cmd seq compressed (c ∷ cs) m pos dec = dec

  pub Framed-body :
      (m : Message) (v : Sendable limit m) (body : Bytes) → v.body ≡ body → Framed s e m
  Framed-body m v [] is = record {
    frame = record {
      header = header_of m.command_id m.sequence_no false [];
      body = [];
      message = m;
    };
    accepted =
        header_of-Accepts m.command_id m.sequence_no false [] m v.cmd_fits v.seq_fits (omega arith)
          (payload_view m []
            (subst (λ t. (m.payload ≡ some (segment_of t)) ⊎ ((m.payload ≡ none) × (t ≡ []))) is
              v.payload_is)
            (omega arith));
    packed = to_packet_empty s m (empty_payload m v.body is v.payload_is);
    viewed = refl;
  }
    where
      empty_payload :
          (m : Message) (b : Bytes)
          → b ≡ []
          → (m.payload ≡ some (segment_of b)) ⊎ ((m.payload ≡ none) × (b ≡ []))
          → (m.payload ≡ some (segment_of [])) ⊎ (m.payload ≡ none)
      empty_payload m b z (inl p) = inl (p ∙ ap (λ t. some (segment_of t)) z)
      empty_payload m b z (inr p) = inr p.0
  Framed-body m v (b ∷ body) is =
      let (coded, compressed, m', enc, pos, fits, dec, vw) =
        k.undone m.command_id m.sequence_no v.body v.cmd_fits (omega (arith, ap length is))
          v.body_fits v.body_bytes in
      record {
        frame = record {
          header = header_of m.command_id m.sequence_no compressed coded;
          body = coded;
          message = m';
        };
        accepted =
            header_of-Accepts m.command_id m.sequence_no compressed coded m' v.cmd_fits v.seq_fits
              fits (coded_Means m.command_id m.sequence_no compressed coded m' pos dec);
        packed =
            to_packet_body s m v.body coded compressed (body_payload m v.body is v.payload_is)
              v.cmd_fits (omega (arith, ap length is)) (omega (arith, v.body_fits, k.limit_fits))
              enc;
        viewed =
            vw
            ∙ sym (payload_view m v.body v.payload_is (omega (arith, v.body_fits, k.limit_fits)));
      }
    where
      body_payload :
          (m : Message) (c : Bytes)
          → c ≡ b ∷ body
          → (m.payload ≡ some (segment_of c)) ⊎ ((m.payload ≡ none) × (c ≡ []))
          → m.payload ≡ some (segment_of c)
      body_payload m c z (inl p) = p
      body_payload m c z (inr p) = absurd (omega (arith, ap length z, ap length p.1))
