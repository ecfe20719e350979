-- ===== src/Stage/Sendback/Keys.antt =====
-- stage/stage/ServerSendbackController.cpp: `GetControllerKey` tells servers apart.
use linux_stage_asio.Prelude.{
  ℕ, zero, suc, ◌+◌, ◌-◌, ◌*◌, ◌/◌, ◌%◌, ◌^◌, ◌<◌, ◌≡◌, refl, sym, ap, subst, ◌∙◌, ◌≢◌, inl, inr,
  Bool, true, false, [], ◌∷◌, ◌++◌, append_assoc, arith, ltb, if◌then◌else◌, Bool-cases, All,
  All-append, if_elim,
}
use linux_stage_asio.Prelude.Words.{Bytes}
use linux_stage_asio.Prelude.Outcome.{done, fault}
use linux_stage_asio.Core.Segment.{is_negative}
use native.Mathlib.Nat.{pow-suc}
use linux_stage_asio.Stage.Sendback.{
  decimal, print_int, c_text, key_text, get_controller_key, same_text,
}

pub same_text→eq : (xs ys : Bytes) → same_text xs ys ≡ true → xs ≡ ys
same_text→eq [] [] h = refl
same_text→eq [] (y ∷ ys) h = cc
same_text→eq (x ∷ xs) [] h = cc
same_text→eq (x ∷ xs) (y ∷ ys) h = ground (arith, same_text→eq xs ys)

pub same_text_self : (xs : Bytes) → same_text xs xs ≡ true
same_text_self [] = refl
same_text_self (x ∷ xs) = ground (arith, same_text_self xs)

-- Not a dot and not the sign.
abbrev Plain : ℕ → Type 0
Plain c = (c ≢ b'.') × (c ≢ b'-')

decimal-Plain : (digits n : ℕ) → All Plain (decimal digits n)
unfolding decimal
decimal-Plain zero n = tt
decimal-Plain (suc digits) n = elim (Bool-cases (ltb n 10)) [
  | inl small ↦ rw small ((omega arith, omega arith), tt)
  | inr large ↦ rw large (
      All-append Plain (decimal digits (n / 10)) ((48 + n % 10) ∷ [])
        (decimal-Plain digits (n / 10)) ((omega arith, omega arith), tt))
]

-- Reading a number back.
value : ℕ → Bytes → ℕ
value acc [] = acc
value acc (c ∷ cs) = value (acc * 10 + (c - 48)) cs

value-append :
    (acc : ℕ) (xs : Bytes) (c : ℕ) → value acc (xs ++ c ∷ []) ≡ value acc xs * 10 + (c - 48)
unfolding value
value-append acc [] c = refl
value-append acc (x ∷ xs) c = value-append (acc * 10 + (x - 48)) xs c

value-decimal : (digits n : ℕ) → n < 10 ^ digits → value 0 (decimal digits n) ≡ n
unfolding decimal value
value-decimal zero n h = omega arith
value-decimal (suc digits) n h = elim (Bool-cases (ltb n 10)) [
  | inl small ↦ rw small (omega arith)
  | inr large ↦ rw large (
      value-append 0 (decimal digits (n / 10)) (48 + n % 10)
      ∙ omega (arith, value-decimal digits (n / 10) (omega (arith, pow-suc 10 digits))))
]

decimal-inj : (n m : ℕ) → n < 2 ^ 32 → m < 2 ^ 32 → decimal 10 n ≡ decimal 10 m → n ≡ m
decimal-inj n m h k e =
    sym (value-decimal 10 n (omega arith)) ∙ ap (value 0) e ∙ value-decimal 10 m (omega arith)

no_dot_of_Plain : (cs : Bytes) → All Plain cs → All (λ c. c ≢ b'.') cs
no_dot_of_Plain [] h = tt
no_dot_of_Plain (c ∷ cs) h = (h.0.0, no_dot_of_Plain cs h.1)

print_int-no_dot : (n : ℕ) → All (λ c. c ≢ b'.') (print_int n)
unfolding print_int
print_int-no_dot n =
    if_elim (All (λ c. c ≢ b'.')) (is_negative n) _ _
      (λ e. (omega arith, no_dot_of_Plain _ (decimal-Plain 10 (2 ^ 32 - n))))
      (λ e. no_dot_of_Plain _ (decimal-Plain 10 n))

-- A number without a sign is not one with a sign.
sign-apart : (cs ds : Bytes) → All Plain ds → b'-' ∷ cs ≢ ds
sign-apart cs [] h e = cc
sign-apart cs (d ∷ ds) h e = h.0.1 (cc)

tail_eq : (x y : ℕ) (xs ys : Bytes) → x ∷ xs ≡ y ∷ ys → xs ≡ ys
tail_eq x y xs ys e = cc

print_int-inj : (n m : ℕ) → n < 2 ^ 32 → m < 2 ^ 32 → print_int n ≡ print_int m → n ≡ m
unfolding print_int
print_int-inj n m h k e = elim (Bool-cases (is_negative n)) [
  | inl neg ↦ elim (Bool-cases (is_negative m)) [
    | inl neg' ↦
        let same =
          decimal-inj (2 ^ 32 - n) (2 ^ 32 - m) (negative_small n neg) (negative_small m neg')
            (tail_eq _ _ _ _ (branch n true neg ∙ e ∙ sym (branch m true neg'))) in
        omega (arith, same)
    | inr pos' ↦
        absurd
          (sign-apart _ _ (decimal-Plain 10 m) (branch n true neg ∙ e ∙ sym (branch m false pos')))
  ]
  | inr pos ↦ elim (Bool-cases (is_negative m)) [
    | inl neg' ↦ absurd (
        sign-apart _ _ (decimal-Plain 10 n) (branch m true neg' ∙ sym e ∙ sym (branch n false pos)))
    | inr pos' ↦ decimal-inj n m h k (branch n false pos ∙ e ∙ sym (branch m false pos'))
  ]
]
  where
    branch :
        (n : ℕ) (b : Bool)
        → is_negative n ≡ b
        → (if b then b'-' ∷ decimal 10 (2 ^ 32 - n) else decimal 10 n)
          ≡ (if is_negative n then b'-' ∷ decimal 10 (2 ^ 32 - n) else decimal 10 n)
    branch n b e = ap (λ c. if c then b'-' ∷ decimal 10 (2 ^ 32 - n) else decimal 10 n) (sym e)

    negative_small : (n : ℕ) → is_negative n ≡ true → 2 ^ 32 - n < 2 ^ 32
    negative_small n e = ground arith

-- Where two texts end without a dot behind their last one, they are cut at the same place.
last_dot :
    (xs ys us vs : Bytes)
    → xs ++ (b'.' ∷ ys) ≡ us ++ (b'.' ∷ vs)
    → All (λ c. c ≢ b'.') ys
    → All (λ c. c ≢ b'.') vs
    → (xs ≡ us) × (ys ≡ vs)
last_dot [] ys [] vs e h k = (refl, tail_eq _ _ _ _ e)
last_dot [] ys (u ∷ us) vs e h k =
    absurd (within us vs (subst (All (λ c. c ≢ b'.')) (tail_eq _ _ _ _ e) h))
  where
    within : (us vs : Bytes) → All (λ c. c ≢ b'.') (us ++ (b'.' ∷ vs)) → ⊥
    within [] vs h = h.0 refl
    within (u ∷ us) vs h = within us vs h.1
last_dot (x ∷ xs) ys [] vs e h k =
    absurd (within xs ys (subst (All (λ c. c ≢ b'.')) (sym (tail_eq _ _ _ _ e)) k))
  where
    within : (us vs : Bytes) → All (λ c. c ≢ b'.') (us ++ (b'.' ∷ vs)) → ⊥
    within [] vs h = h.0 refl
    within (u ∷ us) vs h = within us vs h.1
last_dot (x ∷ xs) ys (u ∷ us) vs e h k =
    let (p, q) = last_dot xs ys us vs (tail_eq x u _ _ e) h k in (cc, q)

c_text-plain : (text : Bytes) → All (λ c. c ≢ 0) text → c_text text ≡ text
unfolding c_text
c_text-plain [] h = refl
c_text-plain (c ∷ text) h = ground (arith, c_text-plain text h.1)

done-inj : {A : Type 0} (x y : A) → done x ≡ done y → x ≡ y
done-inj x y e = cc

guarded : (b : Bool) (text key : Bytes) → (if b then done text else fault) ≡ done key → text ≡ key
guarded true text key e = done-inj text key e
guarded false text key e = cc

is_key :
    (p : Bytes) (n t : ℕ) (key : Bytes) → get_controller_key p n t ≡ done key → key_text p n t ≡ key
unfolding get_controller_key
is_key p n t key e = guarded _ (key_text p n t) key e

-- Two servers with names that have no NUL and with numbers that are 32-bit patterns have one key only
-- if they are one server: name, number and link type are the same.
pub get_controller_key-inj :
    (platform platform' : Bytes) (server_no server_no' link_type link_type' : ℕ) (key : Bytes)
    → All (λ c. c ≢ 0) platform
    → All (λ c. c ≢ 0) platform'
    → (server_no < 2 ^ 32) × (server_no' < 2 ^ 32)
    → (link_type < 256) × (link_type' < 256)
    → get_controller_key platform server_no link_type ≡ done key
    → get_controller_key platform' server_no' link_type' ≡ done key
    → (platform ≡ platform') × (server_no ≡ server_no') × (link_type ≡ link_type')
get_controller_key-inj platform platform' server_no server_no' link_type link_type' key named named'
      s l e f =
    let (front, types) =
      last_dot (c_text platform ++ (b'.' ∷ print_int server_no)) (print_int link_type)
        (c_text platform' ++ (b'.' ∷ print_int server_no')) (print_int link_type')
        (regroup platform server_no link_type
          ∙ is_key platform server_no link_type key e
          ∙ sym (is_key platform' server_no' link_type' key f)
          ∙ sym (regroup platform' server_no' link_type'))
        (print_int-no_dot link_type) (print_int-no_dot link_type') in
    let (names, numbers) =
      last_dot (c_text platform) (print_int server_no) (c_text platform') (print_int server_no')
        front (print_int-no_dot server_no) (print_int-no_dot server_no') in
    (
      sym (c_text-plain platform named) ∙ names ∙ c_text-plain platform' named',
      print_int-inj server_no server_no' s.0 s.1 numbers,
      print_int-inj link_type link_type' (omega arith) (omega arith) types,
    )
  where
    regroup :
        (p : Bytes) (n t : ℕ)
        → (c_text p ++ (b'.' ∷ print_int n)) ++ (b'.' ∷ print_int t) ≡ key_text p n t
    regroup p n t = append_assoc (c_text p) (b'.' ∷ print_int n) (b'.' ∷ print_int t)
