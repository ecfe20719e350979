-- ===== src/Net/Message.antt =====
-- `Message` of stage/net/Message.h and Message.cpp: a command, a sequence number and a payload, and the
-- shared counter of sequence numbers.
use linux_stage_asio.Prelude.{
  ℕ, zero, suc, ◌+◌, ◌^◌, ◌<◌, ◌≡◌, refl, ap, inl, inr, Option, none, some, ◌≢◌, arith, ◌==◌,
  if◌then◌else◌, Bool-cases, ==_iff,
}
use linux_stage_asio.Prelude.Words.{u32}
use linux_stage_asio.Core.Segment.{Segment}

pub record Message : Type 0 where
  pub command_id : ℕ
  pub sequence_no : ℕ
  pub payload : Option Segment

-- The constructor without arguments, and the one with a payload, which calls `Reset`.
abbrev pub empty_message : Message
empty_message = record { command_id = 0; sequence_no = 0; payload = none }

abbrev pub reset_payload : Message → Option Segment → Message
reset_payload m payload = record m { payload = payload }

abbrev pub with_payload : Option Segment → Message
with_payload payload = reset_payload empty_message payload

-- `NewId` at a value of the counter that no other thread changes meanwhile, in at most so many rounds: the
-- number that is given, which the counter keeps.
abbrev pub new_id : ℕ → ℕ → Option ℕ
new_id zero counter = none
new_id (suc rounds) counter =
    let again = new_id rounds (u32 (counter + 1)) in
    if u32 (counter + 1) == 0 then again else some (u32 (counter + 1))

-- Two rounds are enough for a number that is not 0.
new_id-positive :
    (counter : ℕ)
    → counter < 2 ^ 32
    → (id : ℕ) × (new_id 2 counter ≡ some id) × (id ≢ 0) × (id < 2 ^ 32)
new_id-positive counter h = elim (Bool-cases (u32 (counter + 1) == 0)) [
  | inl e ↦
      let wrapped : u32 (counter + 1) ≡ 0 = (==_iff (u32 (counter + 1)) 0).0 e in
      (
        1,
        ap (λ n. if n == 0 then (if u32 (n + 1) == 0 then none else some (u32 (n + 1))) else some n)
            wrapped,
        omega arith,
        omega arith,
      )
  | inr e ↦ (u32 (counter + 1), rw e refl, ground arith, omega arith)
]
