-- ===== src/Net/Receiver/Stream.antt =====
-- The receive loop over a whole stream of frames.
use linux_stage_asio.Prelude.{
  ℕ, ◌-◌, ◌≤◌, ◌<◌, ◌≡◌, refl, sym, ap, ap₂, subst, ◌∙◌, inl, inr, none, some, List, [], ◌∷◌, ◌++◌,
  map, flatten, append-nil, append_assoc, arith, length, length-append, All, append-cut,
}
use linux_stage_asio.Prelude.Words.{Bytes}
use linux_stage_asio.Net.Message.{Message}
use linux_stage_asio.Net.Header.{header_size, encode}
use linux_stage_asio.Net.Header.Laws.{length-encode}
use linux_stage_asio.Net.Receiver.{
  Receiver, Endpoint, Status, success, receive, pump, fresh, start_receive, want, mss, capped,
}
use linux_stage_asio.Net.Receiver.Frames.{
  Frame, Accepts, InHeader, view, frame_bytes, wire, Fits, Within,
}
use linux_stage_asio.Net.Receiver.HeaderStep.{header_request, start_receive-header}
use linux_stage_asio.Net.Receiver.BodyStep.{body_request, start_receive-body}
use linux_stage_asio.Net.Receiver.Progress.{
  Pending, in_header, in_body, Pending-length, Advances, decoded,
}
use linux_stage_asio.Net.Receiver.HeaderChunk.{header_chunk}
use linux_stage_asio.Net.Receiver.BodyChunk.{body_chunk}

-- The receiver stands where `tail` is the part of the frames that is still to come.
abbrev pub Awaits : Receiver → List Frame → Bytes → Type 0
Awaits r [] tail = InHeader r [] × (tail ≡ [])
Awaits r (f ∷ fs) tail = (rest : Bytes) × Pending r f rest × (tail ≡ rest ++ wire fs)

idle-Awaits : (r : Receiver) (fs : List Frame) → InHeader r [] → Awaits r fs (wire fs)
idle-Awaits r [] v = (v, refl)
idle-Awaits r (f ∷ fs) v = (frame_bytes f, in_header [] v refl, refl)

module _ (e : Endpoint) where
  chunk_limit :
      (r : Receiver) (f : Frame) (rest : Bytes) (len : ℕ)
      → Accepts e f
      → Pending r f rest
      → Within (start_receive e r) len
      → (0 < len) × (len ≤ length rest)
  chunk_limit r f rest len a (in_header pre v cut) w = ground (
    arith,
    header_request e r pre len v w,
    ap length cut,
    length-append pre rest,
    length-append (encode f.header) f.body,
    length-encode f.header,
  )
  chunk_limit r f rest len a (in_body buf pre v cut) w = ground (
    arith,
    body_request e r f.header (length f.body) buf pre v (decoded e f a r v.header_is) a.size
        a.size_fits len w,
    ap length cut,
    length-append pre rest,
  )

  receive-Advances :
      (r : Receiver) (f : Frame) (chunk rest : Bytes)
      → Accepts e f
      → Pending r f (chunk ++ rest)
      → Within (start_receive e r) (length chunk)
      → Advances (receive e r chunk) f rest
  receive-Advances r f chunk rest a (in_header pre v cut) w =
      let (pos, inside) = header_request e r pre (length chunk) v w in
      header_chunk e f a r pre chunk rest v cut pos inside
  receive-Advances r f chunk rest a (in_body buf pre v cut) w =
      body_chunk e f a r buf pre chunk rest v cut
        (body_request e r f.header (length f.body) buf pre v (decoded e f a r v.header_is) a.size
          a.size_fits (length chunk) w).0

  pump_delivers :
      (r : Receiver) (chunk : Bytes) (chunks : List Bytes) (m : Message)
      → (receive e r chunk).status ≡ success
      → (receive e r chunk).delivered ≡ some m
      → pump e r (chunk ∷ chunks) ≡ (
        m ∷ (pump e (receive e r chunk).receiver chunks).0,
        (pump e (receive e r chunk).receiver chunks).1,
        (pump e (receive e r chunk).receiver chunks).2,
      )
  unfolding pump
  pump_delivers r chunk chunks m s d = ground arith

  pump_continues :
      (r : Receiver) (chunk : Bytes) (chunks : List Bytes)
      → (receive e r chunk).status ≡ success
      → (receive e r chunk).delivered ≡ none
      → pump e r (chunk ∷ chunks) ≡ pump e (receive e r chunk).receiver chunks
  unfolding pump
  pump_continues r chunk chunks s d = ground arith

-- The receive loop has handed on the messages of the frames `done`, still runs, and stands in
-- front of `todo`, of which `tail` is still to come.
pub record Delivered (result : List Message × Status × Receiver) (fs : List Frame) (tail : Bytes)
    : Type 0 where
  pub done : List Frame
  pub todo : List Frame
  pub split : fs ≡ done ++ todo
  pub views : map view result.0 ≡ map (λ f. view f.message) done
  pub running : result.1 ≡ success
  pub awaits : Awaits result.2 todo tail

pub fresh-idle : InHeader fresh []
unfolding fresh
fresh-idle = record {
  header_phase = refl;
  at = refl;
  short = omega arith;
  room = refl;
  got = refl;
  no_payload = inl refl;
}

all_done :
    {r : Receiver} (done todo : List Frame)
    → Awaits r todo []
    → (done ++ todo ≡ done) × InHeader r []
all_done done [] w = (append-nil done, w.0)
all_done done (f ∷ fs) (rest, pending, eq) =
    absurd (omega (arith, Pending-length pending, ap length eq, length-append rest (wire fs)))

module _ (e : Endpoint) where
  pump-Awaits :
      (chunks : List Bytes) (r : Receiver) (fs : List Frame) (tail : Bytes)
      → All (Accepts e) fs
      → Awaits r fs (flatten chunks ++ tail)
      → Fits e r chunks
      → Delivered (pump e r chunks) fs tail
  unfolding mathlib.Core.List.flatten
  pump-Awaits [] r fs tail a w fits = record {
    done = [];
    todo = fs;
    split = refl;
    views = unfold pump in refl;
    running = unfold pump in refl;
    awaits = unfold pump in w;
  }
  pump-Awaits (c ∷ cs) r [] tail a w fits = absurd (
      ground (
        arith,
        header_request e r [] (length c) w.0 fits.0,
        ap length w.1,
        length-append (c ++ flatten cs) tail,
        length-append c (flatten cs),
      ))
  pump-Awaits (c ∷ cs) r (f ∷ fs) tail a (rest, pending, eq) fits =
      let (zs, cut, after) =
        append-cut c (flatten cs ++ tail) rest (wire fs)
          (sym (append_assoc c (flatten cs) tail) ∙ eq)
          (chunk_limit e r f rest (length c) a.0 pending fits.0).1 in
      elim (receive-Advances e r f c zs a.0 (subst (Pending r f) cut pending) fits.0) [
        | inl (fin, none_left) ↦
            let ih =
              pump-Awaits cs (receive e r c).receiver fs tail a.1
                (subst (Awaits (receive e r c).receiver fs)
                  (sym (after ∙ ap (λ t. t ++ wire fs) none_left))
                  (idle-Awaits (receive e r c).receiver fs fin.idle))
                fits.1 in
            rw (pump_delivers e r c cs fin.message fin.is_success fin.delivers) (record {
              done = f ∷ ih.done;
              todo = ih.todo;
              split = ap (◌∷◌ f) ih.split;
              views = ap₂ ◌∷◌ fin.viewed ih.views;
              running = ih.running;
              awaits = ih.awaits;
            })
        | inr con ↦
            let ih =
              pump-Awaits cs (receive e r c).receiver (f ∷ fs) tail a (zs, con.pending, after)
                fits.1 in
            rw (pump_continues e r c cs con.is_success con.nothing) ih
      ]

  -- Once all the bytes have come, every message has been handed on, and the receiver, which stood
  -- between two messages, waits for the next header.
  pub pump-wire_from :
      (r : Receiver) (fs : List Frame) (chunks : List Bytes)
      → InHeader r []
      → All (Accepts e) fs
      → flatten chunks ≡ wire fs
      → Fits e r chunks
      → (map view (pump e r chunks).0 ≡ map (λ f. view f.message) fs)
        × ((pump e r chunks).1 ≡ success)
        × InHeader (pump e r chunks).2 []
  pump-wire_from r fs chunks idle a eq fits =
      let whole : flatten chunks ++ [] ≡ wire fs = append-nil (flatten chunks) ∙ eq in
      let d =
        pump-Awaits chunks r fs [] a (subst (Awaits r fs) (sym whole) (idle-Awaits r fs idle))
          fits in
      let (all, idle_again) = all_done d.done d.todo d.awaits in
      (d.views ∙ ap (map (λ f. view f.message)) (sym (d.split ∙ all)), d.running, idle_again)

  pub pump-wire :
      (fs : List Frame) (chunks : List Bytes)
      → All (Accepts e) fs
      → flatten chunks ≡ wire fs
      → Fits e fresh chunks
      → (map view (pump e fresh chunks).0 ≡ map (λ f. view f.message) fs)
        × ((pump e fresh chunks).1 ≡ success)
        × InHeader (pump e fresh chunks).2 []
  pump-wire fs chunks a eq fits = pump-wire_from fresh fs chunks fresh-idle a eq fits

  -- In front of an acceptable frame the receiver asks for at least one byte, for no more than are
  -- still to come, and for at most one segment.
  pub start_receive-Awaits :
      (r : Receiver) (f : Frame) (fs : List Frame) (tail : Bytes)
      → Accepts e f
      → Awaits r (f ∷ fs) tail
      → (n : ℕ) × (start_receive e r ≡ want n) × (0 < n) × (n ≤ mss) × (n ≤ length tail)
  start_receive-Awaits r f fs tail a (rest, in_header pre v cut, eq) = (
    header_size - length pre,
    start_receive-header e r pre v,
    omega (arith, v.short),
    omega arith,
    ground (
      arith,
      ap length eq,
      length-append rest (wire fs),
      ap length cut,
      length-append pre rest,
      length-append (encode f.header) f.body,
      length-encode f.header,
    ),
  )
  start_receive-Awaits r f fs tail a (rest, in_body buf pre v cut, eq) =
      let d = decoded e f a r v.header_is in
      (
        capped (length f.body - length pre),
        start_receive-body e r f.header (length f.body) buf pre v d a.size a.size_fits,
        ground (arith, v.short),
        ground arith,
        ground (
          arith,
          ap length eq,
          length-append rest (wire fs),
          ap length cut,
          length-append pre rest,
        ),
      )
