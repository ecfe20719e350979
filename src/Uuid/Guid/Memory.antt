-- ===== src/Uuid/Guid/Memory.antt =====
-- uuid/Guid.cpp and Guid.h: an identifier and its 16 bytes.
use linux_stage_asio.Prelude.{
  ℕ, ◌/◌, ◌^◌, ◌<◌, ◌≡◌, refl, sym, ap, subst, ◌∙◌, ◌↔◌, true, false, some, [], ◌∷◌, ◌++◌,
  append-nil, arith, ltb, if◌then◌else◌, length, take, take-all,
}
use linux_stage_asio.Prelude.Words.{u8, Bytes, word16, word32}
use linux_stage_asio.Prelude.Outcome.{done, fault}
use linux_stage_asio.Uuid.Guid.{Guid, to_array, guid_at, from_buffer, same_bytes, equal}
use linux_stage_asio.Uuid.Guid.RoundTrip.{IsGuid}

word32-put32 :
    (n : ℕ) → n < 2 ^ 32 → word32 (u8 n) (u8 (n / 2 ^ 8)) (u8 (n / 2 ^ 16)) (u8 (n / 2 ^ 24)) ≡ n
word32-put32 n h = omega arith

word16-put16 : (n : ℕ) → n < 2 ^ 16 → word16 (u8 n) (u8 (n / 2 ^ 8)) ≡ n
word16-put16 n h = omega arith

guid_at-to_array : (g : Guid) → IsGuid g → guid_at (to_array g) ≡ g
guid_at-to_array g h = λ i. record {
  data1 = word32-put32 g.data1 h.word i;
  data2 = word16-put16 g.data2 h.short2 i;
  data3 = word16-put16 g.data3 h.short3 i;
  data4 = g.data4;
}

-- An identifier that is built from the bytes of another one is the same.
pub from_buffer-to_array : (g : Guid) → IsGuid g → from_buffer (some (to_array g)) 16 ≡ done g
unfolding from_buffer
from_buffer-to_array g h =
    let enough : ltb (length (to_array g)) 16 ≡ false = ground (arith, h.eight) in
    (λ i. if enough i then fault else done (guid_at (take 16 (to_array g) ++ [])))
    ∙ ap (λ bytes. done (guid_at bytes))
        (append-nil (take 16 (to_array g)) ∙ take-all 16 (to_array g) (omega (arith, h.eight)))
    ∙ ap done (guid_at-to_array g h)

same_bytes→eq : (xs ys : Bytes) → same_bytes xs ys ≡ true → xs ≡ ys
same_bytes→eq [] [] h = refl
same_bytes→eq [] (y ∷ ys) h = cc
same_bytes→eq (x ∷ xs) [] h = cc
same_bytes→eq (x ∷ xs) (y ∷ ys) h = ground (arith, same_bytes→eq xs ys)

same_bytes_self : (xs : Bytes) → same_bytes xs xs ≡ true
same_bytes_self [] = refl
same_bytes_self (x ∷ xs) = ground (arith, same_bytes_self xs)

-- Two identifiers compare equal exactly when their members are the same.
pub equal_iff : (g h : Guid) → IsGuid g → IsGuid h → (equal g h ≡ true) ↔ (g ≡ h)
equal_iff g h hg hh = (
  λ e.
      sym (guid_at-to_array g hg)
      ∙ ap guid_at (same_bytes→eq (to_array g) (to_array h) e)
      ∙ guid_at-to_array h hh,
  λ e. subst (λ k. equal g k ≡ true) e (same_bytes_self (to_array g)),
)
