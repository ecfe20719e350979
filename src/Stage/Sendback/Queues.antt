-- ===== src/Stage/Sendback/Queues.antt =====
-- stage/stage/ServerSendbackController.cpp: what becomes of the queue of each server.
use linux_stage_asio.Prelude.{
  ℕ, ◌≡◌, refl, sym, ap, subst, ◌∙◌, inl, inr, Bool, true, false, ◌&&◌, Option, none, some, List,
  [], ◌∷◌, ◌++◌, ◌==◌, if◌then◌else◌, Bool-cases, Option-cases, if_elim,
}
use linux_stage_asio.Prelude.Words.{Bytes}
use linux_stage_asio.Prelude.Outcome.{◌>>=◌, done, Ensures}
use linux_stage_asio.Stage.Sendback.{
  get_controller_key, ServerSendbackSettings, ServerSendbackContext, ServerObjectController,
  ServerSendbackController, same_text, lookup, store, erase, new_controller, found_or, add_under,
  AddCode, added, no_packet, new_context, enqueue, raw_add_sendback, clear, Handed, on_online,
  on_offline,
}
use linux_stage_asio.Stage.Sendback.Tables.{
  lookup-store, lookup-erase, enqueue_elim, add_under_elim,
}
use linux_stage_asio.Stage.Sendback.Keys.{same_text→eq}

abbrev pub waiting : Option ServerObjectController → List ServerSendbackContext
waiting none = []
waiting (some c) = c.cached_contexts

-- The packets that are kept under a key.
abbrev pub queue : ServerSendbackController → Bytes → List ServerSendbackContext
queue s key = waiting (lookup s.controller_table key)

-- A packet is put behind the others of its controller, or nothing changes.
abbrev pub is_added : AddCode → Bool
is_added added = true
is_added _ = false

abbrev pub grown : Bool → List ServerSendbackContext → Bytes → ℕ → List ServerSendbackContext
grown b queue packet size = if b then queue ++ new_context packet size ∷ [] else queue

pub enqueue-grown :
    (settings : ServerSendbackSettings) (time : Option ℕ) (c : ServerObjectController)
    (packet : Bytes) (size now : ℕ)
    → (enqueue settings time c packet size now).0.cached_contexts
      ≡ grown (is_added (enqueue settings time c packet size now).1) c.cached_contexts packet size
enqueue-grown settings time c packet size now =
    enqueue_elim (λ r. r.0.cached_contexts ≡ grown (is_added r.1) c.cached_contexts packet size)
      settings time c packet size now refl refl refl (λ e f. refl)

-- The queue under a key behind the store of a controller.
pub queue-store :
    (s : ServerSendbackController) (key : Bytes) (c : ServerObjectController) (j : Bytes)
    → queue (record s { controller_table = store s.controller_table key c }) j
      ≡ (if same_text key j then c.cached_contexts else queue s j)
queue-store s key c j =
    ap waiting (lookup-store s.controller_table key c j)
    ∙ if_elim
        (λ (r : Option ServerObjectController).
          waiting r ≡ (if same_text key j then c.cached_contexts else queue s j))
        (same_text key j) (some c) (lookup s.controller_table j) (λ e. rw e) (λ e. rw e)

pub queue-erase :
    (s : ServerSendbackController) (key j : Bytes)
    → queue (record s { controller_table = erase s.controller_table key }) j
      ≡ (if same_text key j then [] else queue s j)
queue-erase s key j =
    ap waiting (lookup-erase s.controller_table key j)
    ∙ if_elim
        (λ (r : Option ServerObjectController).
          waiting r ≡ (if same_text key j then [] else queue s j))
        (same_text key j) none (lookup s.controller_table j) (λ e. rw e) (λ e. rw e)

-- A store under `key` of what was there, changed.
pub queue-stored :
    (s : ServerSendbackController) (key j : Bytes) (c : ServerObjectController)
    (f : List ServerSendbackContext → List ServerSendbackContext)
    → c.cached_contexts ≡ f (queue s key)
    → queue (record s { controller_table = store s.controller_table key c }) j
      ≡ (if same_text key j then f (queue s j) else queue s j)
queue-stored s key j c f e = elim (Bool-cases (same_text key j)) [
  | inl same ↦
      queue-store s key c j ∙ rw same (e ∙ ap (λ k. f (queue s k)) (same_text→eq key j same))
  | inr other ↦ queue-store s key c j ∙ rw other refl
]

found-contexts :
    (s : ServerSendbackController) (key : Bytes) (new : ServerObjectController)
    → new.cached_contexts ≡ []
    → (found_or new (lookup s.controller_table key)).cached_contexts ≡ queue s key
found-contexts s key new e = elim (Option-cases (lookup s.controller_table key)) [
  | inl h ↦ rw h e
  | inr (c, h) ↦ rw h refl
]

both :
    {A : Type 0} (a b : Bool) (x y : A)
    → (if b then if a then x else y else y) ≡ (if a && b then x else y)
both true true x y = refl
both true false x y = refl
both false true x y = refl
both false false x y = refl

module _ (s : ServerSendbackController) (key j : Bytes) where
  pub add_under-queue :
      (new : ServerObjectController) (packet : Bytes) (size now : ℕ)
      → new.cached_contexts ≡ []
      → queue (add_under s key new packet size now).0 j
        ≡ grown
            (is_added (add_under s key new packet size now).1 && same_text key j)
            (queue s j)
            packet
            size
  add_under-queue new packet size now e =
      let found = found_or new (lookup s.controller_table key) in
      let code : AddCode =
        (enqueue s.settings s.settings.thoroughly_abandon_time found packet size now).1 in
      add_under_elim
        (λ r. queue r.0 j ≡ grown (is_added r.1 && same_text key j) (queue s j) packet size) s key
        new packet size now refl refl
        (λ r is.
          queue-stored s key j r.0 (λ q. grown (is_added r.1) q packet size)
            (subst (λ r. r.0.cached_contexts ≡ grown (is_added r.1) (queue s key) packet size)
              (sym is)
              (enqueue-grown s.settings s.settings.thoroughly_abandon_time found packet size now
                ∙ ap (λ q. grown (is_added code) q packet size) (found-contexts s key new e)))
          ∙ both (is_added r.1) (same_text key j) _ _)

either : {A : Type 0} (b : Bool) (x : A) → (if b then x else x) ≡ x
either true x = refl
either false x = refl

emptied :
    (s : ServerSendbackController) (key j : Bytes)
    → queue s key ≡ []
    → queue s j ≡ (if same_text key j then [] else queue s j)
emptied s key j e = elim (Bool-cases (same_text key j)) [
  | inl same ↦ rw same (ap (queue s) (sym (same_text→eq key j same)) ∙ e)
  | inr other ↦ rw other refl
]

module _ (s : ServerSendbackController) (platform : Bytes) (server_no link_type : ℕ) (key j : Bytes)
    (named : get_controller_key platform server_no link_type ≡ done key) where
  pub raw_add_sendback-queue :
      (packet : Bytes) (size now : ℕ)
      → Ensures
          (λ (r : ServerSendbackController × AddCode).
            queue r.0 j ≡ grown (is_added r.1 && same_text key j) (queue s j) packet size)
          (raw_add_sendback s platform server_no link_type (some packet) size now)
  unfolding raw_add_sendback
  raw_add_sendback-queue packet size now = rw named (
      if_elim
        (Ensures (λ (r : ServerSendbackController × AddCode).
          queue r.0 j ≡ grown (is_added r.1 && same_text key j) (queue s j) packet size))
        (size == 0) (done (s, no_packet))
        (done (add_under s key (new_controller platform server_no link_type now) packet size now))
        (λ e. refl)
        (λ e.
          add_under-queue s key j (new_controller platform server_no link_type now) packet size now
            refl))

  pub on_online-queue :
      (sendback : Option (ServerSendbackContext → Bool))
      → Ensures
          (λ (r : Handed).
            (queue r.controller j ≡ (if same_text key j then [] else queue s j))
            × (r.handed ≡ elim sendback [ none ↦ [] | some send ↦ queue s key ]))
          (on_online s platform server_no link_type sendback)
  unfolding on_online clear
  on_online-queue none = elim (Option-cases (lookup s.controller_table key)) [
    | inl h ↦ rw named (rw (h, Ensures, ◌>>=◌) (emptied s key j (rw h refl), refl))
    | inr (c, h) ↦ rw named (rw (h, Ensures, ◌>>=◌) (queue-erase s key j, refl))
  ]
  on_online-queue (some send) = elim (Option-cases (lookup s.controller_table key)) [
    | inl h ↦ rw named (rw (h, Ensures, ◌>>=◌) (emptied s key j (rw h refl), sym (rw h refl)))
    | inr (c, h) ↦ rw named (rw (h, Ensures, ◌>>=◌) (queue-erase s key j, sym (rw h refl)))
  ]

  pub on_offline-queue :
      (now : ℕ)
      → Ensures
          (λ (r : ServerSendbackController × ℕ). queue r.0 j ≡ queue s j)
          (on_offline s platform server_no link_type now)
  unfolding on_offline
  on_offline-queue now =
      let found : ServerObjectController =
        found_or (new_controller platform server_no link_type now)
          (lookup s.controller_table key) in
      rw named (
        queue-stored s key j (record found { cached_aborting_time = now }) (λ q. q)
          (found-contexts s key (new_controller platform server_no link_type now) refl)
        ∙ either (same_text key j) (queue s j))

module _ (s : ServerSendbackController) (platform : Bytes) (server_no link_type : ℕ) (key j : Bytes)
    (named : get_controller_key platform server_no link_type ≡ done key) where
  pub clear-queue :
      Ensures
        (λ (r : ServerSendbackController × ℕ).
          queue r.0 j ≡ (if same_text key j then [] else queue s j))
        (clear s platform server_no link_type)
  unfolding clear
  clear-queue = elim (Option-cases (lookup s.controller_table key)) [
    | inl h ↦ rw named (rw (h, Ensures) (emptied s key j (rw h refl)))
    | inr (c, h) ↦ rw named (rw (h, Ensures) (queue-erase s key j))
  ]
