-- ===== src/Stage/Registry/LinkNumbers.antt =====
-- `NewLinkNo` finds a free link number.
use linux_stage_asio.Prelude.{
  ℕ, zero, suc, ◌+◌, ◌%◌, ◌^◌, ◌≤◌, ◌<◌, ◌≡◌, refl, sym, subst, ◌∙◌, ◌≢◌, inl, inr, none, some,
  List, [], ◌∷◌, arith, Option-cases, length,
}
use linux_stage_asio.Stage.Registry.{find, erase, next_id, search_link_no, new_link_no}
use linux_stage_asio.Stage.Registry.Entries.{find-erase_other}

-- The counter runs through 1 to 65535.
next_id_is : (counter : ℕ) → counter < 2 ^ 16 → next_id counter ≡ 1 + counter % 65535
next_id_is counter fits = ground arith

abbrev candidate : ℕ → ℕ → ℕ
candidate counter i = 1 + (counter + i) % 65535

length-erase :
    (entries : List (ℕ × ℕ)) (key a : ℕ)
    → find entries key ≡ some a
    → suc (length (erase entries key)) ≡ length entries
length-erase [] key a found = absurd (ground arith)
length-erase ((k, b) ∷ entries) key a found = ground (arith, length-erase entries key a)

candidate_next : (counter i : ℕ) → candidate (1 + counter % 65535) i ≡ candidate counter (suc i)
candidate_next counter i = omega arith

-- Fewer than 65535 numbers in turn are distinct.
candidate_distinct :
    (counter i : ℕ) → suc i < 65535 → candidate counter 0 ≢ candidate counter (suc i)
candidate_distinct counter i few e = omega arith

-- `left` agrees with the entries on the numbers that are still to be tried.
abbrev Agrees : List (ℕ × ℕ) → List (ℕ × ℕ) → ℕ → ℕ → Type 0
Agrees entries left tries counter =
    (i : ℕ) → i < tries → find entries (candidate counter i) ≡ find left (candidate counter i)

Agrees-next :
    (entries left : List (ℕ × ℕ)) (tries counter : ℕ)
    → suc tries ≤ 65535
    → Agrees entries left (suc tries) counter
    → Agrees entries (erase left (candidate counter 0)) tries (1 + counter % 65535)
Agrees-next entries left tries counter few known i low =
    subst (λ c. find entries c ≡ find (erase left (candidate counter 0)) c)
      (sym (candidate_next counter i))
      (known (suc i) (omega arith)
        ∙ sym (
            find-erase_other left (candidate counter 0) (candidate counter (suc i))
              (candidate_distinct counter i (omega arith))))

search_link_no-free :
    (tries : ℕ) (entries left : List (ℕ × ℕ)) (counter : ℕ)
    → counter < 2 ^ 16
    → tries ≤ 65535
    → length left < tries
    → Agrees entries left tries counter
    → (find entries (search_link_no entries tries counter) ≡ none)
      × (0 < search_link_no entries tries counter)
      × (search_link_no entries tries counter < 2 ^ 16)
unfolding search_link_no
search_link_no-free zero entries left counter fits few room known = absurd (omega arith)
search_link_no-free (suc tries) entries left counter fits few room known =
    let id : next_id counter ≡ candidate counter 0 = next_id_is counter fits ∙ omega arith in
    elim (Option-cases (find entries (candidate counter 0))) [
      | inl free ↦ ground (arith, id, free)
      | inr (a, taken) ↦
          let there : find left (candidate counter 0) ≡ some a =
            sym (known 0 (omega arith)) ∙ taken in
          let shorter = length-erase left (candidate counter 0) a there in
          let ih =
            search_link_no-free tries entries (erase left (candidate counter 0))
              (1 + counter % 65535) (omega arith) (omega arith) (omega (arith, shorter))
              (Agrees-next entries left tries counter few known) in
          let onward : search_link_no entries (suc tries) counter
              ≡ search_link_no entries tries (1 + counter % 65535) =
            ground (arith, id, taken) in
          rw onward ih
    ]

-- From any value of the 16-bit counter, and with fewer than 65535 entries in the vector, `NewLinkNo`
-- gives a number that is not in use, is not 0 and fits 16 bits.
pub new_link_no-free :
    (entries : List (ℕ × ℕ)) (counter : ℕ)
    → counter < 2 ^ 16
    → length entries < 65535
    → (find entries (new_link_no (some entries) counter) ≡ none)
      × (0 < new_link_no (some entries) counter)
      × (new_link_no (some entries) counter < 2 ^ 16)
unfolding new_link_no
new_link_no-free entries counter fits room =
    search_link_no-free 0xffff entries entries counter fits (omega arith) room (λ i low. refl)
