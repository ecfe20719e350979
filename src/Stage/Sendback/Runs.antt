-- ===== src/Stage/Sendback/Runs.antt =====
-- stage/stage/ServerSendbackController.cpp: runs of calls, with a journal of the packets for one key.
use linux_stage_asio.Prelude.{
  ℕ, ◌≡◌, Bool, true, false, ◌&&◌, ◌||◌, not, Option, none, some, List, [], ◌++◌, ◌==◌,
  if◌then◌else◌,
}
use linux_stage_asio.Prelude.Words.{Bytes}
use linux_stage_asio.Prelude.Outcome.{done}
use linux_stage_asio.Stage.Sendback.{
  get_controller_key, ServerSendbackSettings, ServerSendbackContext, ServerSendbackController,
  same_text, AddCode, raw_add_sendback, process_tick_always, clear, Handed, on_online, on_offline,
  dispose,
}
use linux_stage_asio.Stage.Sendback.Queues.{is_added, grown}

-- What an observer notes down of the packets for one key: those that `RawAddSendback` returned 0
-- for, those that `sendback` was called on, and whether packets were thrown away.
pub record Journal : Type 0 where
  pub accepted : List ServerSendbackContext
  pub handed : List ServerSendbackContext
  pub has_lost : Bool

abbrev pub empty_journal : Journal
empty_journal = record { accepted = []; handed = []; has_lost = false }

abbrev pub accepting : Journal → Bool → Bytes → ℕ → Journal
accepting l here packet size = record l { accepted = grown here l.accepted packet size }

abbrev pub handing :
    Journal → Bool → Option (ServerSendbackContext → Bool) → List ServerSendbackContext → Journal
handing l here none packets = record l { has_lost = here || l.has_lost }
handing l here (some sendback) packets = record l {
  handed = if here then l.handed ++ packets else l.handed;
}

abbrev pub losing : Journal → Bool → Journal
losing l lost = record l { has_lost = lost || l.has_lost }

-- The controllers that calls reach, with the journal of the key `j`.
pub data Run (j : Bytes) : ServerSendbackController → Journal → Type 0 where
  starts : {s : ServerSendbackController} → s.controller_table ≡ [] → Run j s empty_journal
  sets :
      {s : ServerSendbackController} {l : Journal} (settings : ServerSendbackSettings)
      → Run j s l
      → Run j (record s { settings = settings }) l
  adds :
      {s s' : ServerSendbackController} {l : Journal} {key : Bytes} {code : AddCode}
      (platform : Bytes) (server_no link_type : ℕ) (packet : Bytes) (size now : ℕ)
      → Run j s l
      → get_controller_key platform server_no link_type ≡ done key
      → raw_add_sendback s platform server_no link_type (some packet) size now ≡ done (s', code)
      → Run j s' (accepting l (is_added code && same_text key j) packet size)
  comes :
      {s : ServerSendbackController} {l : Journal} {key : Bytes} {r : Handed} (platform : Bytes)
      (server_no link_type : ℕ) (sendback : Option (ServerSendbackContext → Bool))
      → Run j s l
      → get_controller_key platform server_no link_type ≡ done key
      → on_online s platform server_no link_type sendback ≡ done r
      → Run j r.controller (handing l (same_text key j) sendback r.handed)
  leaves :
      {s s' : ServerSendbackController} {l : Journal} {key : Bytes} {events : ℕ} (platform : Bytes)
      (server_no link_type now : ℕ)
      → Run j s l
      → get_controller_key platform server_no link_type ≡ done key
      → on_offline s platform server_no link_type now ≡ done (s', events)
      → Run j s' l
  clears :
      {s s' : ServerSendbackController} {l : Journal} {key : Bytes} {events : ℕ} (platform : Bytes)
      (server_no link_type : ℕ)
      → Run j s l
      → get_controller_key platform server_no link_type ≡ done key
      → clear s platform server_no link_type ≡ done (s', events)
      → Run j s' (losing l (same_text key j))
  ticks :
      {s : ServerSendbackController} {l : Journal} (now : ℕ)
      → Run j s l
      → Run j (process_tick_always s now).0 (losing l (not ((process_tick_always s now).1 == 0)))
  disposes :
      {s : ServerSendbackController} {l : Journal} → Run j s l → Run j (dispose s) (losing l true)
