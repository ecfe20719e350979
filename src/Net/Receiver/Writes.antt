-- ===== src/Net/Receiver/Writes.antt =====
-- What a store of a block into a buffer leaves there.
use linux_stage_asio.Prelude.{
  ℕ, zero, suc, ◌+◌, ◌≤◌, ◌<◌, ◌≡◌, refl, sym, ap, ◌∙◌, [], ◌∷◌, ◌++◌, append_assoc, arith, length,
  get_or, take, drop, length-append, length-take, length-drop, take-append_length,
}
use linux_stage_asio.Prelude.Words.{Bytes}
use linux_stage_asio.Net.Receiver.{write}

pub length-write :
    (buf : Bytes) (i : ℕ) (block : Bytes)
    → i + length block ≤ length buf
    → length (write buf i block) ≡ length buf
length-write buf i block h = omega (
  arith,
  length-append (take i buf) (block ++ drop (i + length block) buf),
  length-append block (drop (i + length block) buf),
  length-take i buf,
  length-drop (i + length block) buf,
)

-- What was filled stays, and the block follows it.
pub take-write :
    (buf : Bytes) (i : ℕ) (block : Bytes)
    → i ≤ length buf
    → take (i + length block) (write buf i block) ≡ take i buf ++ block
take-write buf i block h =
    ap (λ n. take n (write buf i block))
      (omega (arith, length-append (take i buf) block, length-take i buf))
    ∙ ap (take (length (take i buf ++ block)))
        (sym (append_assoc (take i buf) block (drop (i + length block) buf)))
    ∙ take-append_length (take i buf ++ block) (drop (i + length block) buf)

pub get_or-take : (xs : Bytes) (n : ℕ) (d : ℕ) → 0 < n → get_or (take n xs) 0 d ≡ get_or xs 0 d
get_or-take xs zero d h = absurd (omega arith)
get_or-take [] (suc n) d h = refl
get_or-take (x ∷ xs) (suc n) d h = refl

pub get_or-append : (xs ys : Bytes) (d : ℕ) → 0 < length xs → get_or (xs ++ ys) 0 d ≡ get_or xs 0 d
get_or-append [] ys d h = absurd (omega arith)
get_or-append (x ∷ xs) ys d h = refl
