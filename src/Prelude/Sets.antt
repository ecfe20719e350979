-- ===== src/Prelude/Sets.antt =====
-- Sets of numbers as lists without order: the keys of a hash map.
use Prim.Native.Nat.{ℕ, ◌<◌}
use mathlib.Core.Path.{◌≡◌, refl, ap}
use mathlib.Core.Logic.{◌≢◌, inl, inr}
use mathlib.Core.Bool.{Bool, true, false, ◌||◌}
use mathlib.Core.List.{List, [], ◌∷◌, ◌++◌}
use native.Mathlib.Omega.{arith}
use linux_stage_asio.Prelude.Tests.{◌==◌, if◌then◌else◌, Bool-cases, ==_iff}
use linux_stage_asio.Prelude.Lists.{All, length}

abbrev pub member : List ℕ → ℕ → Bool
member [] v = false
member (x ∷ xs) v = x == v || member xs v

abbrev pub erase_key : List ℕ → ℕ → List ℕ
erase_key [] v = []
erase_key (x ∷ xs) v = if x == v then erase_key xs v else x ∷ erase_key xs v

pub member-erase_key :
    (xs : List ℕ) (v y : ℕ) → member (erase_key xs v) y ≡ (if v == y then false else member xs y)
member-erase_key [] v y = ground arith
member-erase_key (x ∷ xs) v y = ground (arith, member-erase_key xs v y)

pub member-append : (xs ys : List ℕ) (v : ℕ) → member (xs ++ ys) v ≡ (member xs v || member ys v)
member-append [] ys v = refl
member-append (x ∷ xs) ys v = ground (arith, member-append xs ys v)

pub All_of_not_member : (xs : List ℕ) (v : ℕ) → member xs v ≡ false → All (λ y. y ≢ v) xs
All_of_not_member [] v h = tt
All_of_not_member (x ∷ xs) v h = (ground arith, All_of_not_member xs v (ground arith))

pub not_member_of_All : (xs : List ℕ) (v : ℕ) → All (λ y. y ≢ v) xs → member xs v ≡ false
not_member_of_All [] v h = refl
not_member_of_All (x ∷ xs) v h = ground (arith, not_member_of_All xs v h.1)

-- Where a member stands.
pub member-split :
    (xs : List ℕ) (v : ℕ) → member xs v ≡ true → (us : List ℕ) × (vs : List ℕ) × (xs ≡ us ++ v ∷ vs)
member-split [] v h = absurd (ground arith)
member-split (x ∷ xs) v h = elim (Bool-cases (x == v)) [
  | inl e ↦ ([], xs, ap (λ y. y ∷ xs) ((==_iff x v).0 e))
  | inr ne ↦
      let (us, vs, split) = member-split xs v (ground arith) in (x ∷ us, vs, ap (◌∷◌ x) split)
]

pub member-snoc_self : (xs : List ℕ) (v : ℕ) → member (xs ++ v ∷ []) v ≡ true
member-snoc_self [] v = ground arith
member-snoc_self (x ∷ xs) v = ground (arith, member-snoc_self xs v)

pub member-snoc_other : (xs : List ℕ) (v y : ℕ) → v ≢ y → member (xs ++ v ∷ []) y ≡ member xs y
member-snoc_other [] v y h = ground arith
member-snoc_other (x ∷ xs) v y h = ground (arith, member-snoc_other xs v y h)

pub member-snoc_old : (xs : List ℕ) (v y : ℕ) → member xs y ≡ true → member (xs ++ v ∷ []) y ≡ true
member-snoc_old xs v y h = ground (arith, member-append xs (v ∷ []) y)

pub member-split_self : (us : List ℕ) (v : ℕ) (vs : List ℕ) → member (us ++ v ∷ vs) v ≡ true
member-split_self us v vs = ground (arith, member-append us (v ∷ vs) v)

pub member-split_other :
    (us : List ℕ) (v : ℕ) (vs : List ℕ) (y : ℕ)
    → v ≢ y
    → member (us ++ v ∷ vs) y ≡ member (us ++ vs) y
member-split_other us v vs y h = ground (arith, member-append us (v ∷ vs) y, member-append us vs y)

pub length_of_member : (xs : List ℕ) (v : ℕ) → member xs v ≡ true → 0 < length xs
length_of_member [] v h = absurd (ground arith)
length_of_member (x ∷ xs) v h = omega arith

pub member-insert :
    (table xs : List ℕ) (v y : ℕ)
    → member table y ≡ member xs y
    → member (v ∷ table) y ≡ member (xs ++ v ∷ []) y
member-insert table xs v y h = ground (arith, member-append xs (v ∷ []) y)
