-- ===== src/Prelude/Bits.antt =====
-- The exclusive or of two numbers, by its lowest digit: it is undone by itself, stays in its width,
-- and commutes with a mask.
use Prim.Native.Nat.{
  ℕ, zero, suc, ◌+◌, ◌*◌, ◌/◌, ◌%◌, ◌^◌, ◌≤◌, ◌<◌, digits, bitwise, bit_xor, bit_xor-bitwise,
  differ,
}
use mathlib.Core.Path.{◌≡◌, refl, ap, ap₂, ◌∙◌}
use native.Mathlib.Nat.{pow-suc, le_refl}
use native.Mathlib.Omega.{arith}

-- The count of digits to go does not matter, as long as it suffices.
digits-enough :
    (n m a b : ℕ) → a ≤ n → a ≤ m → digits (λ y. y) differ n a b ≡ digits (λ y. y) differ m a b
digits-enough zero zero a b p q = refl
digits-enough zero (suc m) zero b p q = refl
digits-enough zero (suc m) (suc a) b p q = absurd (omega arith)
digits-enough (suc n) zero zero b p q = refl
digits-enough (suc n) zero (suc a) b p q = absurd (omega arith)
digits-enough (suc n) (suc m) zero b p q = refl
digits-enough (suc n) (suc m) (suc a) b p q =
    rw (digits-enough n m (suc a / 2) (b / 2) (omega arith) (omega arith))

xor_suc :
    (a b : ℕ)
    → bitwise (λ y. y) differ (suc a) b
      ≡ bitwise (λ y. y) differ (suc a / 2) (b / 2) * 2 + differ (suc a % 2) (b % 2)
xor_suc a b =
    omega (arith, digits-enough a (suc a / 2) (suc a / 2) (b / 2) (omega arith) (le_refl _))

pub bit_xor_step : (a b : ℕ) → bit_xor a b ≡ bit_xor (a / 2) (b / 2) * 2 + differ (a % 2) (b % 2)
bit_xor_step zero b = simp bit_xor-bitwise (omega arith)
bit_xor_step (suc a) b = simp bit_xor-bitwise (xor_suc a b)

pub differ-lt : (x y : ℕ) → x < 2 → y < 2 → differ x y < 2
differ-lt zero y h k = k
differ-lt (suc x) zero h k = h
differ-lt (suc zero) (suc zero) h k = omega arith
differ-lt (suc zero) (suc (suc y)) h k = absurd (omega arith)
differ-lt (suc (suc x)) (suc y) h k = absurd (omega arith)

differ-differ : (x y : ℕ) → x < 2 → y < 2 → differ (differ x y) y ≡ x
differ-differ zero zero h k = refl
differ-differ zero (suc zero) h k = refl
differ-differ zero (suc (suc y)) h k = absurd (omega arith)
differ-differ (suc zero) zero h k = refl
differ-differ (suc zero) (suc zero) h k = refl
differ-differ (suc zero) (suc (suc y)) h k = absurd (omega arith)
differ-differ (suc (suc x)) y h k = absurd (omega arith)

pub bit_xor-lt : (k a b : ℕ) → a < 2 ^ k → b < 2 ^ k → bit_xor a b < 2 ^ k
bit_xor-lt zero zero zero h g = omega arith
bit_xor-lt zero zero (suc b) h g = absurd (omega arith)
bit_xor-lt zero (suc a) b h g = absurd (omega arith)
bit_xor-lt (suc k) a b h g = omega (
  arith,
  pow-suc 2 k,
  bit_xor_step a b,
  differ-lt (a % 2) (b % 2) (omega arith) (omega arith),
  bit_xor-lt k (a / 2) (b / 2) (omega (arith, pow-suc 2 k)) (omega (arith, pow-suc 2 k)),
)

pub bit_xor_twice : (k a b : ℕ) → a < 2 ^ k → b < 2 ^ k → bit_xor (bit_xor a b) b ≡ a
bit_xor_twice zero zero zero h g = refl
bit_xor_twice zero zero (suc b) h g = absurd (omega arith)
bit_xor_twice zero (suc a) b h g = absurd (omega arith)
bit_xor_twice (suc k) a b h g =
    bit_xor_step (bit_xor a b) b
    ∙ ap₂ (λ p q. bit_xor p (b / 2) * 2 + differ q (b % 2)) half low
    ∙ omega (
      arith,
      bit_xor_twice k (a / 2) (b / 2) (omega (arith, pow-suc 2 k)) (omega (arith, pow-suc 2 k)),
      differ-differ (a % 2) (b % 2) (omega arith) (omega arith),
    )
  where
    half : bit_xor a b / 2 ≡ bit_xor (a / 2) (b / 2)
    half = omega (arith, bit_xor_step a b, differ-lt (a % 2) (b % 2) (omega arith) (omega arith))

    low : bit_xor a b % 2 ≡ differ (a % 2) (b % 2)
    low = omega (arith, bit_xor_step a b, differ-lt (a % 2) (b % 2) (omega arith) (omega arith))

bit_xor-zero_fuel : (n a : ℕ) → a ≤ n → bit_xor a 0 ≡ a
bit_xor-zero_fuel n zero h = refl
bit_xor-zero_fuel zero (suc a) h = absurd (omega arith)
bit_xor-zero_fuel (suc n) (suc a) h =
    bit_xor_step (suc a) 0
    ∙ ap (λ t. bit_xor (suc a / 2) 0 * 2 + t) (differ-zero (suc a % 2))
    ∙ omega (arith, bit_xor-zero_fuel n (suc a / 2) (omega arith))
  where
    differ-zero : (x : ℕ) → differ x 0 ≡ x
    differ-zero zero = refl
    differ-zero (suc x) = refl

pub double_pow : (q k : ℕ) → q * 2 ^ suc k ≡ 2 * (q * 2 ^ k)
double_pow q k = omega (arith, ap (λ (t : ℕ). q * t) (pow-suc 2 k))

-- The digits above the width of the second number are untouched.
pub bit_xor_fields :
    (k q r b : ℕ) → r < 2 ^ k → b < 2 ^ k → bit_xor (q * 2 ^ k + r) b ≡ q * 2 ^ k + bit_xor r b
bit_xor_fields zero q zero zero h g =
    rw (bit_xor-zero_fuel (q * 2 ^ 0 + 0) (q * 2 ^ 0 + 0) (omega arith)) (omega arith)
bit_xor_fields zero q zero (suc b) h g = absurd (omega arith)
bit_xor_fields zero q (suc r) b h g = absurd (omega arith)
bit_xor_fields (suc k) q r b h g =
    bit_xor_step (q * 2 ^ suc k + r) b
    ∙ ap₂ (λ s t. bit_xor s (b / 2) * 2 + differ t (b % 2)) (half k q r) (low k q r)
    ∙ omega (
      arith,
      bit_xor_step r b,
      double_pow q k,
      bit_xor_fields k q (r / 2) (b / 2) (omega (arith, pow-suc 2 k)) (omega (arith, pow-suc 2 k)),
    )
  where
    half : (k q r : ℕ) → (q * 2 ^ suc k + r) / 2 ≡ q * 2 ^ k + r / 2
    half k q r = omega (arith, double_pow q k)

    low : (k q r : ℕ) → (q * 2 ^ suc k + r) % 2 ≡ r % 2
    low k q r = omega (arith, double_pow q k)

-- On bytes the exclusive or may be taken before or after the cast.
pub bit_xor-byte : (a b : ℕ) → b < 2 ^ 8 → bit_xor a b % 2 ^ 8 ≡ bit_xor (a % 2 ^ 8) b
bit_xor-byte a b h =
    ap (λ t. bit_xor t b % 2 ^ 8) (omega arith)
    ∙ ap (λ (t : ℕ). t % 2 ^ 8) (bit_xor_fields 8 (a / 2 ^ 8) (a % 2 ^ 8) b (omega arith) h)
    ∙ omega (arith, bit_xor-lt 8 (a % 2 ^ 8) b (omega arith) h)
