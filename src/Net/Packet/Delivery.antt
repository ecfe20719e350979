-- ===== src/Net/Packet/Delivery.antt =====
-- From the messages of a sender to the messages of the receiver on the other side.
use linux_stage_asio.Prelude.{ℕ, ◌≡◌, refl, sym, ap₂, ◌∙◌, List, [], ◌∷◌, map, flatten, All}
use linux_stage_asio.Prelude.Words.{Bytes}
use linux_stage_asio.Prelude.Outcome.{done}
use linux_stage_asio.Net.Message.{Message}
use linux_stage_asio.Net.Receiver.{Receiver, Endpoint, success, pump}
use linux_stage_asio.Net.Receiver.Frames.{Frame, Accepts, view, wire, Fits, InHeader}
use linux_stage_asio.Net.Receiver.Stream.{pump-wire_from}
use linux_stage_asio.Net.Packet.{Sender, send_all}
use linux_stage_asio.Net.Packet.Framing.{Matched, Sendable, Framed-body}

module _ (limit : ℕ) (s : Sender) (e : Endpoint) (k : Matched limit s e) where
  frames_of : (ms : List Message) → All (Sendable limit) ms → List Frame
  frames_of [] v = []
  frames_of (m ∷ ms) v = (Framed-body limit s e k m v.0 v.0.body refl).frame ∷ frames_of ms v.1

  frames_of-Accepts :
      (ms : List Message) (v : All (Sendable limit) ms) → All (Accepts e) (frames_of ms v)
  unfolding frames_of
  frames_of-Accepts [] v = tt
  frames_of-Accepts (m ∷ ms) v =
      ((Framed-body limit s e k m v.0 v.0.body refl).accepted, frames_of-Accepts ms v.1)

  send_all-frames :
      (ms : List Message) (v : All (Sendable limit) ms)
      → send_all s ms ≡ done (wire (frames_of ms v))
  unfolding frames_of send_all
  send_all-frames [] v = refl
  send_all-frames (m ∷ ms) v =
      rw ((Framed-body limit s e k m v.0 v.0.body refl).packed, send_all-frames ms v.1) refl

  views_of :
      (ms : List Message) (v : All (Sendable limit) ms)
      → map (λ f. view f.message) (frames_of ms v) ≡ map view ms
  unfolding frames_of
  views_of [] v = refl
  views_of (m ∷ ms) v =
      ap₂ ◌∷◌ (Framed-body limit s e k m v.0 v.0.body refl).viewed (views_of ms v.1)

  -- With a cipher that the receiver's matches, sending never fails for messages that fit the header
  -- and the limit of the match.
  pub send_all_done :
      (ms : List Message)
      → All (Sendable limit) ms
      → (stream : Bytes) × (send_all s ms ≡ done stream)
  send_all_done ms v = (wire (frames_of ms v), send_all-frames ms v)

  done_injective : {a b : Bytes} → done a ≡ done b → a ≡ b
  done_injective h = cc

  -- From any receiver that stands between two messages, at whose place it ends, too.
  pub pump-send_all_from :
      (r : Receiver) (ms : List Message) (chunks : List Bytes)
      → InHeader r []
      → All (Sendable limit) ms
      → send_all s ms ≡ done (flatten chunks)
      → Fits e r chunks
      → (map view (pump e r chunks).0 ≡ map view ms)
        × ((pump e r chunks).1 ≡ success)
        × InHeader (pump e r chunks).2 []
  pump-send_all_from r ms chunks idle v sent fits =
      let result =
        pump-wire_from e r (frames_of ms v) chunks idle (frames_of-Accepts ms v)
          (done_injective (sym sent ∙ send_all-frames ms v)) fits in
      (result.0 ∙ views_of ms v, result.1, result.2)
