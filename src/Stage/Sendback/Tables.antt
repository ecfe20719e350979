-- ===== src/Stage/Sendback/Tables.antt =====
-- stage/stage/ServerSendbackController.cpp: the hash map of the controllers, and the ways that an
-- addition goes.
use linux_stage_asio.Prelude.{
  ℕ, ◌+◌, ◌%◌, ◌^◌, ◌≡◌, refl, sym, ap, ◌∙◌, inl, inr, Bool, true, false, Option, none, some, List,
  [], ◌∷◌, ◌++◌, ltb, ◌==◌, if◌then◌else◌, Bool-cases, if_elim,
}
use linux_stage_asio.Prelude.Words.{Bytes}
use linux_stage_asio.Stage.Sendback.{
  ServerSendbackSettings, ServerObjectController, ServerSendbackController, same_text, lookup,
  store, erase, found_or, add_under, AddCode, added, queue_is_full, buffer_is_full, was_disposed,
  keeps_nothing, abandoned, new_context, enqueue, exceeds, too_late,
}
use linux_stage_asio.Stage.Sendback.Keys.{same_text→eq, same_text_self}

same_text-cong : (k key j : Bytes) → same_text k key ≡ true → same_text k j ≡ same_text key j
same_text-cong k key j e = ap (λ x. same_text x j) (same_text→eq k key e)

same_text-apart :
    (k key j : Bytes) → same_text k key ≡ false → same_text k j ≡ true → same_text key j ≡ false
same_text-apart k key j e f = elim (Bool-cases (same_text key j)) [
  | inl g ↦
      cc (e, same_text_self k, ap (same_text k) (same_text→eq k j f ∙ sym (same_text→eq key j g)))
  | inr g ↦ g
]

replaced :
    {A : Type 0} (a b : Bool) (x y z : A)
    → b ≡ a
    → (if b then x else z) ≡ (if a then x else if b then y else z)
replaced true b x y z e = rw e
replaced false b x y z e = rw e

passed :
    {A : Type 0} (a b : Bool) (x y z : A)
    → (b ≡ true → a ≡ false)
    → (if b then y else if a then x else z) ≡ (if a then x else if b then y else z)
passed true true x y z h = cc (h refl)
passed true false x y z h = refl
passed false true x y z h = refl
passed false false x y z h = refl

pub lookup-store :
    (table : List (Bytes × ServerObjectController)) (key : Bytes) (c : ServerObjectController)
    (j : Bytes)
    → lookup (store table key c) j ≡ (if same_text key j then some c else lookup table j)
lookup-store [] key c j = refl
lookup-store ((k, d) ∷ table) key c j = elim (Bool-cases (same_text k key)) [
  | inl same ↦ rw same (
      replaced (same_text key j) (same_text k j) (some c) (some d) (lookup table j)
        (same_text-cong k key j same))
  | inr other ↦ rw other (
      ap (λ r. if same_text k j then some d else r) (lookup-store table key c j)
      ∙ passed (same_text key j) (same_text k j) (some c) (some d) (lookup table j)
          (same_text-apart k key j other))
]

pub lookup-erase :
    (table : List (Bytes × ServerObjectController)) (key j : Bytes)
    → lookup (erase table key) j ≡ (if same_text key j then none else lookup table j)
lookup-erase [] key j = elim (Bool-cases (same_text key j)) [ inl e ↦ rw e | inr e ↦ rw e ]
lookup-erase ((k, d) ∷ table) key j = elim (Bool-cases (same_text k key)) [
  | inl same ↦ rw same (
      lookup-erase table key j
      ∙ replaced_none (same_text key j) (same_text k j) (some d) (lookup table j)
          (same_text-cong k key j same))
  | inr other ↦ rw other (
      ap (λ r. if same_text k j then some d else r) (lookup-erase table key j)
      ∙ passed (same_text key j) (same_text k j) none (some d) (lookup table j)
          (same_text-apart k key j other))
]
  where
    replaced_none :
        {A : Type 0} (a b : Bool) (y z : Option A)
        → b ≡ a
        → (if a then none else z) ≡ (if a then none else if b then y else z)
    replaced_none true b y z e = refl
    replaced_none false b y z e = rw e

-- Every way that `enqueue` goes.
abbrev pub put_behind : ServerObjectController → Bytes → ℕ → ServerObjectController
put_behind c packet size = record c {
  cached_packet_size = (c.cached_packet_size + size) % 2 ^ 64;
  cached_queue_count = c.cached_queue_count + 1;
  cached_contexts = c.cached_contexts ++ new_context packet size ∷ [];
}

pub enqueue_elim :
    (P : ServerObjectController × AddCode → Type 0) (settings : ServerSendbackSettings)
    (time : Option ℕ) (c : ServerObjectController) (packet : Bytes) (size now : ℕ)
    → P (c, abandoned)
    → P (c, queue_is_full)
    → P (c, buffer_is_full)
    → (ltb settings.max_send_queue_size (c.cached_queue_count + 1) ≡ false
        → exceeds ((c.cached_packet_size + size) % 2 ^ 64) settings.max_send_buffer_size ≡ false
        → P (put_behind c packet size, added))
    → P (enqueue settings time c packet size now)
unfolding enqueue
enqueue_elim P settings time c packet size now late full large kept =
    let is_late : Bool = elim time [ none ↦ false | some limit ↦ too_late c limit now ] in
    let is_full : Bool = ltb settings.max_send_queue_size (c.cached_queue_count + 1) in
    let is_large : Bool =
      exceeds ((c.cached_packet_size + size) % 2 ^ 64) settings.max_send_buffer_size in
    let behind : ServerObjectController × AddCode = (put_behind c packet size, added) in
    let small : ServerObjectController × AddCode =
      if is_large then (c, buffer_is_full) else behind in
    if_elim P is_late (c, abandoned) (if is_full then (c, queue_is_full) else small) (λ e. late)
      (λ e.
        if_elim P is_full (c, queue_is_full) small (λ f. full)
          (λ f. if_elim P is_large (c, buffer_is_full) behind (λ g. large) (kept f)))

-- Every way that `add_under` goes.
pub add_under_elim :
    (P : ServerSendbackController × AddCode → Type 0) (s : ServerSendbackController) (key : Bytes)
    (new : ServerObjectController) (packet : Bytes) (size now : ℕ)
    → P (s, was_disposed)
    → P (s, keeps_nothing)
    → ((r : ServerObjectController × AddCode)
        → r
          ≡ enqueue s.settings s.settings.thoroughly_abandon_time
              (found_or new (lookup s.controller_table key))
              packet
              size
              now
        → P (record s { controller_table = store s.controller_table key r.0 }, r.1))
    → P (add_under s key new packet size now)
unfolding add_under
add_under_elim P s key new packet size now gone nothing kept =
    let r : ServerObjectController × AddCode =
      enqueue s.settings s.settings.thoroughly_abandon_time
        (found_or new (lookup s.controller_table key)) packet size now in
    let stored : ServerSendbackController × AddCode =
      (record s { controller_table = store s.controller_table key r.0 }, r.1) in
    let timed : Option ℕ → ServerSendbackController × AddCode = λ o. elim o [
      | none ↦ stored
      | some time ↦ if time == 0 then (s, keeps_nothing) else stored
    ] in
    if_elim P s.disposed (s, was_disposed) (timed s.settings.thoroughly_abandon_time) (λ e. gone)
      (λ e. elim s.settings.thoroughly_abandon_time as (λ o. P (timed o)) [
        | none ↦ kept r refl
        | some time ↦
            if_elim P (time == 0) (s, keeps_nothing) stored (λ f. nothing) (λ f. kept r refl)
      ])
