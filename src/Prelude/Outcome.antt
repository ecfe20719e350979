-- ===== src/Prelude/Outcome.antt =====
-- What a call of the code comes to: a value, a refusal that the code reports, or undefined
-- behaviour of C++.

use mathlib.Core.Path.{◌≡◌, refl, subst}

pub data Outcome {ℓ} (A : Type ℓ) : Type ℓ where
  done : A → Outcome A
  refused : Outcome A
  fault : Outcome A

infixl 5 ◌>>=◌
abbrev pub ◌>>=◌ {ℓ κ} : {A : Type ℓ} {B : Type κ} → Outcome A → (A → Outcome B) → Outcome B
done a >>= f = f a
refused >>= f = refused
fault >>= f = fault

-- A call that comes to a value with a property, and to nothing else.
abbrev pub Ensures {ℓ} : {A : Type ℓ} → (A → Type 0) → Outcome A → Type 0
Ensures P (done a) = P a
Ensures P refused = ⊥
Ensures P fault = ⊥

pub Ensures-bind {ℓ κ} :
    {A : Type ℓ} {B : Type κ} (P : A → Type 0) (Q : B → Type 0) (m : Outcome A) (f : A → Outcome B)
    → Ensures P m
    → ((a : A) → P a → Ensures Q (f a))
    → Ensures Q (m >>= f)
Ensures-bind P Q (done a) f h k = k a h
Ensures-bind P Q refused f h k = elim h [ ]
Ensures-bind P Q fault f h k = elim h [ ]

pub done_of_Ensures {ℓ} :
    {A : Type ℓ} (P : A → Type 0) (m : Outcome A) → Ensures P m → (a : A) × (m ≡ done a) × P a
done_of_Ensures P (done a) h = (a, refl, h)
done_of_Ensures P refused h = elim h [ ]
done_of_Ensures P fault h = elim h [ ]

pub ensured {ℓ} :
    {A : Type ℓ} (P : A → Type 0) (m : Outcome A) (a : A) → m ≡ done a → Ensures P m → P a
ensured P m a e h = subst (Ensures P) e h
