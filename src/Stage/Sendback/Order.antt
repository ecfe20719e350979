-- ===== src/Stage/Sendback/Order.antt =====
-- stage/stage/ServerSendbackController.cpp: in which order the packets that are kept for a server
-- come out again.
use linux_stage_asio.Prelude.{
  ◌⊎◌, inl, inr, Bool-cases, ℕ, ◌≡◌, refl, sym, ap, subst, ◌∙◌, Bool, true, false, ◌&&◌, ◌||◌, not,
  Option, none, some, List, [], ◌∷◌, ◌++◌, append-nil, append_assoc, arith, ◌==◌, if◌then◌else◌,
}
use linux_stage_asio.Prelude.Words.{Bytes}
use linux_stage_asio.Prelude.Outcome.{done, ensured}
use mathlib.Core.List.{Sublist, sublist-append_left}
use mathlib.Core.List.Sublist
use linux_stage_asio.Stage.Sendback.{
  get_controller_key, ServerSendbackContext, ServerSendbackController, same_text, lookup, AddCode,
  new_context, raw_add_sendback, process_tick_always, clear, Handed, on_online, on_offline, dispose,
}
use linux_stage_asio.Stage.Sendback.Keys.{same_text→eq}
use linux_stage_asio.Stage.Sendback.Queues.{
  waiting, queue, is_added, grown, raw_add_sendback-queue, on_online-queue, on_offline-queue,
  clear-queue,
}
use linux_stage_asio.Stage.Sendback.Ticks.{IsSpared, spared, dropped, process_tick_always-IsSpared}
use linux_stage_asio.Stage.Sendback.Runs.{
  Journal, accepting, handing, losing, Run, starts, sets, adds, comes, leaves, clears, ticks,
  disposes,
}

-- What came out and what is kept, in that order.
abbrev IsOrdered : List ServerSendbackContext → Journal → Type 0
IsOrdered q l =
    Sublist (l.handed ++ q) l.accepted × (l.has_lost ≡ false → l.handed ++ q ≡ l.accepted)

accepting-IsOrdered :
    (l : Journal) (q r : List ServerSendbackContext) (here : Bool) (packet : Bytes) (size : ℕ)
    → r ≡ grown here q packet size
    → IsOrdered q l
    → IsOrdered r (accepting l here packet size)
accepting-IsOrdered l q r true packet size e (sub, all) = rw e (
  subst (λ x. Sublist x (l.accepted ++ new_context packet size ∷ []))
      (append_assoc l.handed q (new_context packet size ∷ []))
      (Sublist.append sub (Sublist.refl _)),
  λ kept.
      sym (append_assoc l.handed q (new_context packet size ∷ []))
      ∙ ap (λ x. x ++ new_context packet size ∷ []) (all kept),
)
accepting-IsOrdered l q r false packet size e h = subst (λ x. IsOrdered x l) (sym e) h

emptied-IsOrdered :
    (l : Journal) (q r : List ServerSendbackContext) (here : Bool)
    → r ≡ (if here then [] else q)
    → IsOrdered q l
    → IsOrdered r (losing l here)
emptied-IsOrdered l q r true e (sub, all) =
    rw e (rw append-nil (Sublist.trans (sublist-append_left l.handed q) sub), λ kept. cc)
emptied-IsOrdered l q r false e h = subst (λ x. IsOrdered x l) (sym e) h

handed-IsOrdered :
    (l : Journal) (q r : List ServerSendbackContext) (here : Bool)
    (sendback : ServerSendbackContext → Bool) (packets : List ServerSendbackContext)
    → r ≡ (if here then [] else q)
    → (here ≡ true → packets ≡ q)
    → IsOrdered q l
    → IsOrdered r (handing l here (some sendback) packets)
handed-IsOrdered l q r true sendback packets e f h =
    rw (e, f refl)
      (subst (λ x. Sublist x l.accepted × (l.has_lost ≡ false → x ≡ l.accepted))
        (sym (append-nil (l.handed ++ q))) h)
handed-IsOrdered l q r false sendback packets e f h = subst (λ x. IsOrdered x l) (sym e) h

kept_of : (a b : Bool) → (a || b) ≡ false → b ≡ false
kept_of true b e = cc
kept_of false b e = e

none_of : (events : ℕ) (b : Bool) → (not (events == 0) || b) ≡ false → events ≡ 0
none_of events b e = ground arith

spared-IsOrdered :
    (l : Journal) (q r : List ServerSendbackContext) (events : ℕ)
    → IsSpared q r events
    → IsOrdered q l
    → IsOrdered r (losing l (not (events == 0)))
spared-IsOrdered l q r events spared (sub, all) =
    (sub, λ e. all (kept_of (not (events == 0)) l.has_lost e))
spared-IsOrdered l q r events (dropped some_events) (sub, all) = (
  rw append-nil (Sublist.trans (sublist-append_left l.handed q) sub),
  λ e. elim (some_events (none_of events l.has_lost e)) [ ],
)

-- One step of a run, for a server whose key is `key`.
module _ (j : Bytes) (s : ServerSendbackController) (l : Journal) (key platform : Bytes)
    (server_no link_type : ℕ) (named : get_controller_key platform server_no link_type ≡ done key)
    (before : IsOrdered (queue s j) l) where
  added-IsOrdered :
      (packet : Bytes) (size now : ℕ) (s' : ServerSendbackController) (code : AddCode)
      → raw_add_sendback s platform server_no link_type (some packet) size now ≡ done (s', code)
      → IsOrdered (queue s' j) (accepting l (is_added code && same_text key j) packet size)
  added-IsOrdered packet size now s' code e =
      accepting-IsOrdered l (queue s j) (queue s' j) (is_added code && same_text key j) packet size
        (ensured
          (λ (r : ServerSendbackController × AddCode).
            queue r.0 j ≡ grown (is_added r.1 && same_text key j) (queue s j) packet size)
          _ (s', code) e
          (raw_add_sendback-queue s platform server_no link_type key j named packet size now))
        before

  came-IsOrdered :
      (sendback : Option (ServerSendbackContext → Bool)) (r : Handed)
      → on_online s platform server_no link_type sendback ≡ done r
      → IsOrdered (queue r.controller j) (handing l (same_text key j) sendback r.handed)
  came-IsOrdered none r e =
      emptied-IsOrdered l (queue s j) (queue r.controller j) (same_text key j)
        (ensured
          (λ (r : Handed).
            (queue r.controller j ≡ (if same_text key j then [] else queue s j)) × (r.handed ≡ []))
          _ r e (on_online-queue s platform server_no link_type key j named none)).0
        before
  came-IsOrdered (some sendback) r e =
      let (kept, given) =
        ensured
          (λ (r : Handed).
            (queue r.controller j ≡ (if same_text key j then [] else queue s j))
            × (r.handed ≡ queue s key))
          _ r e (on_online-queue s platform server_no link_type key j named (some sendback)) in
      handed-IsOrdered l (queue s j) (queue r.controller j) (same_text key j) sendback r.handed kept
        (λ same. given ∙ ap (queue s) (same_text→eq key j same)) before

  left-IsOrdered :
      (now : ℕ) (s' : ServerSendbackController) (events : ℕ)
      → on_offline s platform server_no link_type now ≡ done (s', events)
      → IsOrdered (queue s' j) l
  left-IsOrdered now s' events e =
      subst (λ q. IsOrdered q l)
        (sym (
          ensured (λ (r : ServerSendbackController × ℕ). queue r.0 j ≡ queue s j) _ (s', events) e
            (on_offline-queue s platform server_no link_type key j named now)))
        before

  cleared-IsOrdered :
      (s' : ServerSendbackController) (events : ℕ)
      → clear s platform server_no link_type ≡ done (s', events)
      → IsOrdered (queue s' j) (losing l (same_text key j))
  cleared-IsOrdered s' events e =
      emptied-IsOrdered l (queue s j) (queue s' j) (same_text key j)
        (ensured
          (λ (r : ServerSendbackController × ℕ).
            queue r.0 j ≡ (if same_text key j then [] else queue s j))
          _ (s', events) e (clear-queue s platform server_no link_type key j named))
        before

Run-IsOrdered :
    (j : Bytes) (s : ServerSendbackController) (l : Journal) → Run j s l → IsOrdered (queue s j) l
Run-IsOrdered j s l (starts e) =
    let nothing : queue s j ≡ [] = ap (λ table. waiting (lookup table j)) e in
    (subst (λ q. Sublist q []) (sym nothing) (Sublist.refl []), λ kept. nothing)
Run-IsOrdered j _ _ (sets settings run) = Run-IsOrdered j _ _ run
Run-IsOrdered j _ _
      (adds {s} {s'} {l} {key} {code} platform number link packet size now run named e) =
    added-IsOrdered j s l key platform number link named (Run-IsOrdered j s l run) packet size now
      s' code e
Run-IsOrdered j _ _ (comes {s} {l} {key} {r} platform number link sendback run named e) =
    came-IsOrdered j s l key platform number link named (Run-IsOrdered j s l run) sendback r e
Run-IsOrdered j _ _ (leaves {s} {s'} {l} {key} {events} platform number link now run named e) =
    left-IsOrdered j s l key platform number link named (Run-IsOrdered j s l run) now s' events e
Run-IsOrdered j _ _ (clears {s} {s'} {l} {key} {events} platform number link run named e) =
    cleared-IsOrdered j s l key platform number link named (Run-IsOrdered j s l run) s' events e
Run-IsOrdered j _ _ (ticks {s} {l} now run) =
    spared-IsOrdered l (queue s j) (queue (process_tick_always s now).0 j)
      (process_tick_always s now).1 (process_tick_always-IsSpared s now j) (Run-IsOrdered j s l run)
Run-IsOrdered j _ _ (disposes {s} {l} run) =
    emptied-IsOrdered l (queue s j) (queue (dispose s) j) true (unfold dispose in refl)
      (Run-IsOrdered j s l run)

-- From a controller that keeps nothing on, through changes of the settings, additions, servers that
-- come and go, clearings, ticks and the disposal in any order: for each key, the packets that were
-- handed to `sendback` and those that are kept are, in this order, among the packets that were
-- accepted, each at most once and in the order of acceptance; and they are all of those, unless a tick
-- reported dropped packets, or the queue was cleared or disposed of.
pub Run-ordered :
    (j : Bytes) (s : ServerSendbackController) (l : Journal)
    → Run j s l
    → Sublist (l.handed ++ queue s j) l.accepted
      × ((l.has_lost ≡ true) ⊎ (l.handed ++ queue s j ≡ l.accepted))
Run-ordered j s l run =
    let (sub, all) = Run-IsOrdered j s l run in
    (sub, elim (Bool-cases l.has_lost) [ inl lost ↦ inl lost | inr kept ↦ inr (all kept) ])
