-- ===== src/Stage/Sendback/Acts.antt =====
-- stage/stage/ServerSendbackController.cpp: calls in any order, and the limits on what is kept.
use linux_stage_asio.Prelude.{
  ℕ, ◌+◌, ◌^◌, ◌≤◌, ◌<◌, ◌≡◌, refl, sym, subst, inl, inr, Bool, Option, none, some, List, [], ◌∷◌,
  ◌==◌, Option-cases, length, All, if_elim,
}
use linux_stage_asio.Prelude.Words.{Bytes}
use linux_stage_asio.Prelude.Outcome.{Outcome, done, ◌>>=◌, Ensures, Ensures-bind}
use linux_stage_asio.Stage.Sendback.{
  ServerSendbackSettings, ServerSendbackContext, ServerObjectController, ServerSendbackController,
  lookup, found_or, add_under, new_controller, AddCode, no_packet, raw_add_sendback,
  process_tick_always, clear, Handed, on_online, on_offline, dispose,
}
use linux_stage_asio.Stage.Sendback.Names.{get_controller_key-named}
use linux_stage_asio.Stage.Sendback.Tables.{add_under_elim}
use linux_stage_asio.Stage.Sendback.Limits.{
  IsWithin, AllWithin, AllWithin-lookup, AllWithin-store, AllWithin-erase, IsWithin-empty,
  enqueue-IsWithin, process_controllers-AllWithin,
}

-- What the program calls.
pub data Act : Type 0 where
  add_packet : Bytes → ℕ → ℕ → Bytes → ℕ → ℕ → Act
  online : Bytes → ℕ → ℕ → Option (ServerSendbackContext → Bool) → Act
  offline : Bytes → ℕ → ℕ → ℕ → Act
  clear_one : Bytes → ℕ → ℕ → Act
  tick : ℕ → Act
  dispose_all : Act

abbrev pub act : ServerSendbackController → Act → Outcome ServerSendbackController
act s (add_packet platform server_no link_type packet size now) =
    raw_add_sendback s platform server_no link_type (some packet) size now >>= λ r. done r.0
act s (online platform server_no link_type sendback) =
    on_online s platform server_no link_type sendback >>= λ r. done r.controller
act s (offline platform server_no link_type now) =
    on_offline s platform server_no link_type now >>= λ r. done r.0
act s (clear_one platform server_no link_type) =
    clear s platform server_no link_type >>= λ r. done r.0
act s (tick now) = done (process_tick_always s now).0
act s dispose_all = done (dispose s)

abbrev pub acts : ServerSendbackController → List Act → Outcome ServerSendbackController
acts s [] = done s
acts s (a ∷ later) = act s a >>= λ s'. acts s' later

-- Sizes are those of packets, and names fit.
abbrev pub IsPlain : Act → Type 0
IsPlain (add_packet platform server_no link_type packet size now) =
    length platform ≤ 975 × size < 2 ^ 31
IsPlain (online platform server_no link_type sendback) = length platform ≤ 975
IsPlain (offline platform server_no link_type now) = length platform ≤ 975
IsPlain (clear_one platform server_no link_type) = length platform ≤ 975
IsPlain (tick now) = Unit
IsPlain dispose_all = Unit

abbrev Keeps : ServerSendbackSettings → ServerSendbackController → Type 0
Keeps settings s = s.settings ≡ settings × AllWithin settings s.controller_table

-- What is kept of a result.
kept :
    {A B : Type 0} (part : A → B) (P : B → Type 0) (m : Outcome A)
    → Ensures (λ r. P (part r)) m
    → Ensures P (m >>= λ r. done (part r))
kept part P m h = Ensures-bind (λ r. P (part r)) P m (λ r. done (part r)) h (λ r h. h)

module _ (s : ServerSendbackController) (limit : s.settings.max_send_buffer_size + 2 ^ 31 ≤ 2 ^ 63)
    (all : AllWithin s.settings s.controller_table) where
  add_under-Keeps :
      (key : Bytes) (platform : Bytes) (server_no link_type : ℕ) (packet : Bytes) (size now : ℕ)
      → size < 2 ^ 31
      → Keeps s.settings
          (add_under s key (new_controller platform server_no link_type now) packet size now).0
  add_under-Keeps key platform server_no link_type packet size now small =
      let new : ServerObjectController = new_controller platform server_no link_type now in
      add_under_elim (λ r. Keeps s.settings r.0) s key new packet size now (refl, all) (refl, all)
        (λ r is. (
          refl,
          AllWithin-store s.settings s.controller_table key r.0
              (subst (λ r. IsWithin s.settings r.0) (sym is)
                (enqueue-IsWithin s.settings s.settings.thoroughly_abandon_time
                  (found_or new (lookup s.controller_table key)) packet size now limit small
                  (AllWithin-lookup s.settings s.controller_table key new
                    (IsWithin-empty s.settings new refl refl refl) all)))
              all,
        ))

  cleared-Keeps :
      (platform : Bytes) (server_no link_type : ℕ)
      → length platform ≤ 975
      → Ensures
          (λ (r : ServerSendbackController × ℕ). Keeps s.settings r.0)
          (clear s platform server_no link_type)
  unfolding clear
  cleared-Keeps platform server_no link_type short =
      let (key, named) = get_controller_key-named platform server_no link_type short in
      elim (Option-cases (lookup s.controller_table key)) [
        | inl h ↦ rw named (rw (h, Ensures) (refl, all))
        | inr (c, h) ↦
            rw named (rw (h, Ensures) (refl, AllWithin-erase s.settings s.controller_table key all))
      ]

  raw_added-Keeps :
      (platform : Bytes) (server_no link_type : ℕ) (packet : Bytes) (size now : ℕ)
      → length platform ≤ 975
      → size < 2 ^ 31
      → Ensures
          (λ (r : ServerSendbackController × AddCode). Keeps s.settings r.0)
          (raw_add_sendback s platform server_no link_type (some packet) size now)
  unfolding raw_add_sendback
  raw_added-Keeps platform server_no link_type packet size now short small =
      let (key, named) = get_controller_key-named platform server_no link_type short in
      let new : ServerObjectController = new_controller platform server_no link_type now in
      rw named (
        if_elim (Ensures (λ (r : ServerSendbackController × AddCode). Keeps s.settings r.0))
          (size == 0) (done (s, no_packet)) (done (add_under s key new packet size now))
          (λ e. (refl, all))
          (λ e. add_under-Keeps key platform server_no link_type packet size now small))

  online-Keeps :
      (platform : Bytes) (server_no link_type : ℕ)
      (sendback : Option (ServerSendbackContext → Bool))
      → length platform ≤ 975
      → Ensures
          (λ (r : Handed). Keeps s.settings r.controller)
          (on_online s platform server_no link_type sendback)
  unfolding on_online
  online-Keeps platform server_no link_type none short =
      Ensures-bind (λ (r : ServerSendbackController × ℕ). Keeps s.settings r.0)
        (λ (r : Handed). Keeps s.settings r.controller) (clear s platform server_no link_type)
        (λ r. done (record { controller = r.0; events = r.1; handed = [] }))
        (cleared-Keeps platform server_no link_type short) (λ r h. h)
  online-Keeps platform server_no link_type (some sendback) short =
      let (key, named) = get_controller_key-named platform server_no link_type short in
      elim (Option-cases (lookup s.controller_table key)) [
        | inl h ↦ rw named (rw (h, Ensures, ◌>>=◌) (refl, all))
        | inr (c, h) ↦
            rw named
              (rw (h, Ensures, ◌>>=◌) (refl, AllWithin-erase s.settings s.controller_table key all))
      ]

  offline-Keeps :
      (platform : Bytes) (server_no link_type now : ℕ)
      → length platform ≤ 975
      → Ensures
          (λ (r : ServerSendbackController × ℕ). Keeps s.settings r.0)
          (on_offline s platform server_no link_type now)
  unfolding on_offline
  offline-Keeps platform server_no link_type now short =
      let (key, named) = get_controller_key-named platform server_no link_type short in
      let new : ServerObjectController = new_controller platform server_no link_type now in
      let h : IsWithin s.settings (found_or new (lookup s.controller_table key)) =
        AllWithin-lookup s.settings s.controller_table key new
          (IsWithin-empty s.settings new refl refl refl) all in
      rw named (
        refl,
        AllWithin-store s.settings s.controller_table key
            (record (found_or new (lookup s.controller_table key)) { cached_aborting_time = now })
            (record {
              counted = h.counted;
              measured = h.measured;
              count_within = h.count_within;
              size_within = h.size_within;
            })
            all,
      )

  act-Keeps : (a : Act) → IsPlain a → Ensures (Keeps s.settings) (act s a)
  unfolding process_tick_always dispose
  act-Keeps (add_packet platform server_no link_type packet size now) (short, small) =
      kept (λ r. r.0) (Keeps s.settings) _
        (raw_added-Keeps platform server_no link_type packet size now short small)
  act-Keeps (online platform server_no link_type sendback) short =
      kept (λ r. r.controller) (Keeps s.settings) _
        (online-Keeps platform server_no link_type sendback short)
  act-Keeps (offline platform server_no link_type now) short =
      kept (λ r. r.0) (Keeps s.settings) _ (offline-Keeps platform server_no link_type now short)
  act-Keeps (clear_one platform server_no link_type) short =
      kept (λ r. r.0) (Keeps s.settings) _ (cleared-Keeps platform server_no link_type short)
  act-Keeps (tick now) plain =
      (refl, process_controllers-AllWithin s.settings now s.controller_table all)
  act-Keeps dispose_all plain = (refl, tt)

-- Calls in any order on names of up to 975 bytes and packets below 2^31 bytes come to an end, with the
-- settings as they were, where a limit on the size is at least 2^31 below 2^63. From controllers within
-- the limits they lead to controllers within the limits: each counts its packets and their bytes right,
-- and neither number is above its limit.
pub acts-AllWithin :
    (s : ServerSendbackController) (l : List Act)
    → s.settings.max_send_buffer_size + 2 ^ 31 ≤ 2 ^ 63
    → AllWithin s.settings s.controller_table
    → All IsPlain l
    → Ensures
        (λ (s' : ServerSendbackController).
          s'.settings ≡ s.settings × AllWithin s.settings s'.controller_table)
        (acts s l)
acts-AllWithin s [] limit all plain = (refl, all)
acts-AllWithin s (a ∷ l) limit all (here, plain) =
    Ensures-bind (Keeps s.settings) (Keeps s.settings) (act s a) (λ s'. acts s' l)
      (act-Keeps s limit all a here)
      (λ s' (e, within).
        subst (λ r. Ensures (Keeps r) (acts s' l)) e
          (acts-AllWithin s' l
            (subst (λ (r : ServerSendbackSettings). r.max_send_buffer_size + 2 ^ 31 ≤ 2 ^ 63)
              (sym e) limit)
            (subst (λ r. AllWithin r s'.controller_table) (sym e) within) plain))
