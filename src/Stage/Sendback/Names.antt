-- ===== src/Stage/Sendback/Names.antt =====
-- stage/stage/ServerSendbackController.cpp: the buffer of `GetControllerKey`.
use linux_stage_asio.Prelude.{
  ℕ, zero, suc, ◌+◌, ◌-◌, ◌/◌, ◌%◌, ◌^◌, ◌≤◌, ◌≡◌, refl, true, [], ◌∷◌, ◌++◌, arith, ltb, ◌==◌,
  lt→ltb, length, length-append, if_elim,
}
use linux_stage_asio.Prelude.Words.{Bytes}
use linux_stage_asio.Prelude.Outcome.{done}
use linux_stage_asio.Core.Segment.{is_negative}
use linux_stage_asio.Stage.Sendback.{decimal, print_int, c_text, key_text, get_controller_key}

length-c_text : (text : Bytes) → length (c_text text) ≤ length text
unfolding c_text
length-c_text [] = omega arith
length-c_text (c ∷ text) =
    let ih = length-c_text text in
    if_elim (λ (r : Bytes). length r ≤ suc (length text)) (c == 0) [] (c ∷ c_text text)
      (λ e. omega arith) (λ e. omega (arith, ih))

length-decimal : (digits n : ℕ) → length (decimal digits n) ≤ digits
unfolding decimal
length-decimal zero n = omega arith
length-decimal (suc digits) n =
    let ih = length-decimal digits (n / 10) in
    if_elim (λ (r : Bytes). length r ≤ suc digits) (ltb n 10) ((48 + n) ∷ [])
      (decimal digits (n / 10) ++ (48 + n % 10) ∷ []) (λ e. omega arith)
      (λ e. omega (arith, ih, length-append (decimal digits (n / 10)) ((48 + n % 10) ∷ [])))

length-print_int : (n : ℕ) → length (print_int n) ≤ 11
unfolding print_int
length-print_int n =
    if_elim (λ (r : Bytes). length r ≤ 11) (is_negative n) (b'-' ∷ decimal 10 (2 ^ 32 - n))
      (decimal 10 n) (λ e. omega (arith, length-decimal 10 (2 ^ 32 - n)))
      (λ e. omega (arith, length-decimal 10 n))

pub get_controller_key-named :
    (platform : Bytes) (server_no link_type : ℕ)
    → length platform ≤ 975
    → (key : Bytes) × (get_controller_key platform server_no link_type ≡ done key)
unfolding get_controller_key
get_controller_key-named platform server_no link_type short =
    let a = length-c_text platform in
    let b = length-print_int server_no in
    let c = length-print_int link_type in
    let d = length-append (print_int server_no) (b'.' ∷ print_int link_type) in
    let e =
      length-append (c_text platform)
        (b'.' ∷ (print_int server_no ++ (b'.' ∷ print_int link_type))) in
    let ok : ltb (length (key_text platform server_no link_type)) 1000 ≡ true =
      lt→ltb (length (key_text platform server_no link_type)) 1000 (omega (arith, e)) in
    (key_text platform server_no link_type, rw ok refl)
