-- ===== src/Cipher/Rc4/Box.antt =====
-- The box stays a rearrangement of the bytes below `mod`.
use linux_stage_asio.Prelude.{
  ℕ, zero, suc, ◌+◌, ◌%◌, ◌≤◌, ◌<◌, ◌≡◌, refl, sym, ap, subst, ◌∙◌, [], ◌∷◌, arith, ◌==◌,
  if◌then◌else◌, length, get_or, set, length-set,
}
use linux_stage_asio.Prelude.Words.{Bytes, IsBytes}
use linux_stage_asio.Cipher.Rc4.{init_from, exchange, mix, rc4_sbox}

pub get_or-IsBytes : (xs : Bytes) (i : ℕ) → IsBytes xs → get_or xs i 0 < 256
get_or-IsBytes [] i v = omega arith
get_or-IsBytes (x ∷ xs) zero v = v.0
get_or-IsBytes (x ∷ xs) (suc i) v = get_or-IsBytes xs i v.1

set-IsBytes : (xs : Bytes) (i b : ℕ) → IsBytes xs → b < 256 → IsBytes (set xs i b)
set-IsBytes [] i b v h = v
set-IsBytes (x ∷ xs) zero b v h = (h, v.1)
set-IsBytes (x ∷ xs) (suc i) b v h = (v.0, set-IsBytes xs i b v.1 h)

pub exchange-IsBytes : (box : Bytes) (i j : ℕ) → IsBytes box → IsBytes (exchange box i j)
exchange-IsBytes box i j v =
    set-IsBytes (set box i (get_or box j 0)) j (get_or box i 0)
      (set-IsBytes box i (get_or box j 0) v (get_or-IsBytes box j v)) (get_or-IsBytes box i v)

init_from-IsBytes : (n i : ℕ) → IsBytes (init_from n i)
unfolding init_from
init_from-IsBytes zero i = tt
init_from-IsBytes (suc n) i = (omega arith, init_from-IsBytes n (suc i))

mix-IsBytes :
    (m n : ℕ) (key : Bytes) (i j : ℕ) (box : Bytes) → IsBytes box → IsBytes (mix m n key i j box)
unfolding mix
mix-IsBytes m zero key i j box v = v
mix-IsBytes m (suc n) key i j box v = mix-IsBytes m n key (suc i) _ _ (exchange-IsBytes box i _ v)

rc4_sbox_keyed :
    (m : ℕ) (box key : Bytes)
    → 0 < length key
    → rc4_sbox m box key ≡ mix m m key 0 0 (init_from m 0)
unfolding rc4_sbox
rc4_sbox_keyed m box key some_key = ground arith

pub rc4_sbox-IsBytes : (m : ℕ) (box key : Bytes) → IsBytes box → IsBytes (rc4_sbox m box key)
unfolding rc4_sbox
rc4_sbox-IsBytes m box [] v = v
rc4_sbox-IsBytes m box (k ∷ key) v =
    subst IsBytes (sym (rc4_sbox_keyed m box (k ∷ key) (omega arith)))
      (mix-IsBytes m m (k ∷ key) 0 0 (init_from m 0) (init_from-IsBytes m 0))

-- How often a byte occurs.
abbrev pub count : ℕ → Bytes → ℕ
count b [] = 0
count b (x ∷ xs) = (if b == x then 1 else 0) + count b xs

count-set :
    (b : ℕ) (xs : Bytes) (i v : ℕ)
    → i < length xs
    → count b (set xs i v) + (if b == get_or xs i 0 then 1 else 0)
      ≡ count b xs + (if b == v then 1 else 0)
count-set b [] i v h = absurd (omega arith)
count-set b (x ∷ xs) zero v h = omega arith
count-set b (x ∷ xs) (suc i) v h = omega (arith, count-set b xs i v (omega arith))

get_or-set :
    (xs : Bytes) (i j : ℕ) → i < length xs → get_or (set xs i (get_or xs j 0)) j 0 ≡ get_or xs j 0
get_or-set xs i j h = go xs i j (get_or xs j 0) h refl
  where
    go : (xs : Bytes) (i j v : ℕ) → i < length xs → get_or xs j 0 ≡ v → get_or (set xs i v) j 0 ≡ v
    go [] i j v h e = absurd (omega arith)
    go (x ∷ xs) zero zero v h e = refl
    go (x ∷ xs) zero (suc j) v h e = e
    go (x ∷ xs) (suc i) zero v h e = e
    go (x ∷ xs) (suc i) (suc j) v h e = go xs i j v (omega arith) e

count-exchange :
    (b : ℕ) (box : Bytes) (i j : ℕ)
    → i < length box
    → j < length box
    → count b (exchange box i j) ≡ count b box
count-exchange b box i j hi hj = omega (
  arith,
  count-set b box i (get_or box j 0) hi,
  count-set b (set box i (get_or box j 0)) j (get_or box i 0)
      (omega (arith, length-set box i (get_or box j 0))),
  ap {B = ℕ} (λ t. if b == t then 1 else 0) (get_or-set box i j hi),
)

length-exchange : (box : Bytes) (i j : ℕ) → length (exchange box i j) ≡ length box
length-exchange box i j =
    length-set (set box i (get_or box j 0)) j (get_or box i 0) ∙ length-set box i (get_or box j 0)

count-mix :
    (b m n : ℕ) (key : Bytes) (i j : ℕ) (box : Bytes)
    → length box ≡ m
    → i + n ≤ m
    → count b (mix m n key i j box) ≡ count b box
unfolding mix
count-mix b m zero key i j box e h = refl
count-mix b m (suc n) key i j box e h =
    let j' = (j + get_or box i 0 + get_or key (i % length key) 0) % m in
    count-mix b m n key (suc i) j' (exchange box i j') (length-exchange box i j' ∙ e) (omega arith)
    ∙ count-exchange b box i j' (omega arith) (omega arith)

length-init_from : (n i : ℕ) → length (init_from n i) ≡ n
unfolding init_from
length-init_from zero i = refl
length-init_from (suc n) i = ap suc (length-init_from n (suc i))

count-init_from_below : (b n i : ℕ) → i + n ≤ 256 → b < i → count b (init_from n i) ≡ 0
unfolding init_from
count-init_from_below b zero i h k = refl
count-init_from_below b (suc n) i h k = ground (arith, count-init_from_below b n (suc i))

count-init_from : (b n i : ℕ) → i + n ≤ 256 → i ≤ b → b < i + n → count b (init_from n i) ≡ 1
unfolding init_from
count-init_from b zero i h k l = absurd (omega arith)
count-init_from b (suc n) i h k l =
    ground (arith, count-init_from b n (suc i), count-init_from_below b n (suc i))

-- For a modulus of at most 256 and every key that is not empty, the key schedule leaves each of the
-- numbers below the modulus in the box exactly once, whatever the box held before.
pub rc4_sbox-count :
    (m : ℕ) (box key : Bytes) (b : ℕ)
    → 0 < length key
    → m ≤ 256
    → b < m
    → count b (rc4_sbox m box key) ≡ 1
rc4_sbox-count m box key b some_key h l =
    ap (count b) (rc4_sbox_keyed m box key some_key)
    ∙ count-mix b m m key 0 0 (init_from m 0) (length-init_from m 0) (omega arith)
    ∙ count-init_from b m 0 (omega arith) (omega arith) (omega arith)
