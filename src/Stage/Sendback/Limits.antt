-- ===== src/Stage/Sendback/Limits.antt =====
-- stage/stage/ServerSendbackController.cpp: the limits on what is kept for a server.
use linux_stage_asio.Prelude.{
  ℕ, ◌+◌, ◌%◌, ◌^◌, ◌≤◌, ◌<◌, ◌≡◌, refl, Bool, false, ◌&&◌, not, Option, none, some, List, [], ◌∷◌,
  ◌++◌, arith, ltb, ◌==◌, if◌then◌else◌, length, length-append, if_elim,
}
use linux_stage_asio.Prelude.Words.{Bytes}
use linux_stage_asio.Stage.Sendback.{
  ServerSendbackSettings, ServerSendbackContext, ServerObjectController, same_text, lookup, store,
  erase, found_or, enqueue, exceeds, reset_sendback, expired, do_events, process_controllers,
  new_context,
}
use linux_stage_asio.Stage.Sendback.Tables.{enqueue_elim, put_behind}

abbrev pub total : List ServerSendbackContext → ℕ
total [] = 0
total (c ∷ cs) = c.packet_size + total cs

total-append :
    (xs : List ServerSendbackContext) (x : ServerSendbackContext)
    → total (xs ++ x ∷ []) ≡ total xs + x.packet_size
total-append [] x = omega arith
total-append (y ∷ xs) x = let ih = total-append xs x in omega (arith, ih)

-- The counters of a controller are right, and what it keeps is within the limits.
pub record IsWithin (settings : ServerSendbackSettings) (c : ServerObjectController) : Type 0 where
  pub counted : c.cached_queue_count ≡ length c.cached_contexts
  pub measured : c.cached_packet_size ≡ total c.cached_contexts
  pub count_within : c.cached_queue_count ≤ settings.max_send_queue_size
  pub size_within : c.cached_packet_size ≤ settings.max_send_buffer_size

abbrev pub AllWithin : ServerSendbackSettings → List (Bytes × ServerObjectController) → Type 0
AllWithin settings [] = Unit
AllWithin settings ((k, c) ∷ table) = IsWithin settings c × AllWithin settings table

room_of : (m n : ℕ) → ltb m n ≡ false → n ≤ m
room_of m n e = ground arith

fits_of : (a b : ℕ) → a < 2 ^ 63 → exceeds a b ≡ false → a ≤ b
fits_of a b l e = ground arith

module _ (settings : ServerSendbackSettings) where
  pub AllWithin-lookup :
      (table : List (Bytes × ServerObjectController)) (key : Bytes) (new : ServerObjectController)
      → IsWithin settings new
      → AllWithin settings table
      → IsWithin settings (found_or new (lookup table key))
  AllWithin-lookup [] key new h all = h
  AllWithin-lookup ((k, c) ∷ table) key new h (w, all) =
      if_elim (λ o. IsWithin settings (found_or new o)) (same_text k key) (some c)
        (lookup table key) (λ e. w) (λ e. AllWithin-lookup table key new h all)

  pub AllWithin-store :
      (table : List (Bytes × ServerObjectController)) (key : Bytes) (c : ServerObjectController)
      → IsWithin settings c
      → AllWithin settings table
      → AllWithin settings (store table key c)
  AllWithin-store [] key c h all = (h, all)
  AllWithin-store ((k, d) ∷ table) key c h (w, all) =
      if_elim (AllWithin settings) (same_text k key) ((k, c) ∷ table) ((k, d) ∷ store table key c)
        (λ e. (h, all)) (λ e. (w, AllWithin-store table key c h all))

  pub AllWithin-erase :
      (table : List (Bytes × ServerObjectController)) (key : Bytes)
      → AllWithin settings table
      → AllWithin settings (erase table key)
  AllWithin-erase [] key all = all
  AllWithin-erase ((k, d) ∷ table) key (w, all) =
      if_elim (AllWithin settings) (same_text k key) (erase table key) ((k, d) ∷ erase table key)
        (λ e. AllWithin-erase table key all) (λ e. (w, AllWithin-erase table key all))

  pub IsWithin-empty :
      (c : ServerObjectController)
      → c.cached_queue_count ≡ 0
      → c.cached_packet_size ≡ 0
      → c.cached_contexts ≡ []
      → IsWithin settings c
  IsWithin-empty c e f g = record {
    counted = rw (e, g) refl;
    measured = rw (f, g) refl;
    count_within = omega arith;
    size_within = omega arith;
  }

  put_behind-IsWithin :
      (c : ServerObjectController) (packet : Bytes) (size : ℕ)
      → settings.max_send_buffer_size + 2 ^ 31 ≤ 2 ^ 63
      → size < 2 ^ 31
      → IsWithin settings c
      → ltb settings.max_send_queue_size (c.cached_queue_count + 1) ≡ false
      → exceeds ((c.cached_packet_size + size) % 2 ^ 64) settings.max_send_buffer_size ≡ false
      → IsWithin settings (put_behind c packet size)
  put_behind-IsWithin c packet size limit small h room fits = record {
    counted =
        (let e = length-append c.cached_contexts (new_context packet size ∷ []) in
          let n = h.counted in omega (arith, e));
    measured =
        (let e = total-append c.cached_contexts (new_context packet size) in
          let m = h.measured in let b = h.size_within in omega (arith, e));
    count_within = room_of _ _ room;
    size_within =
        (let b = h.size_within in
          fits_of ((c.cached_packet_size + size) % 2 ^ 64) _ (omega arith) fits);
  }

  pub enqueue-IsWithin :
      (time : Option ℕ) (c : ServerObjectController) (packet : Bytes) (size now : ℕ)
      → settings.max_send_buffer_size + 2 ^ 31 ≤ 2 ^ 63
      → size < 2 ^ 31
      → IsWithin settings c
      → IsWithin settings (enqueue settings time c packet size now).0
  enqueue-IsWithin time c packet size now limit small h =
      enqueue_elim (λ r. IsWithin settings r.0) settings time c packet size now h h h
        (put_behind-IsWithin c packet size limit small h)

  do_events-IsWithin :
      (now : ℕ) (c : ServerObjectController)
      → IsWithin settings c
      → IsWithin settings (do_events settings now c).0
  unfolding do_events
  do_events-IsWithin now c h =
      let P : ServerObjectController × ℕ → Type 0 = λ r. IsWithin settings r.0 in
      let late : ServerObjectController × ℕ = (reset_sendback c, c.cached_queue_count) in
      let test : ℕ → Bool = λ time. expired c time now && not (c.cached_queue_count == 0) in
      elim settings.thoroughly_abandon_time
        as (λ o. P (elim o [
          | none ↦ (c, 0)
          | some time ↦
              if expired c time now && not (c.cached_queue_count == 0) then late else (c, 0)
        ])) [
          | none ↦ h
          | some time ↦
              if_elim P (test time) late (c, 0)
                (λ e. IsWithin-empty (reset_sendback c) refl refl refl) (λ e. h)
        ]

  pub process_controllers-AllWithin :
      (now : ℕ) (table : List (Bytes × ServerObjectController))
      → AllWithin settings table
      → AllWithin settings (process_controllers settings now table).0
  unfolding process_controllers
  process_controllers-AllWithin now [] all = all
  process_controllers-AllWithin now ((k, c) ∷ table) (w, all) =
      (do_events-IsWithin now c w, process_controllers-AllWithin now table all)
