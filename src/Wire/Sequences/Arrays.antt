-- ===== src/Wire/Sequences/Arrays.antt =====
-- `decode_array` of crates/stm32wb-hci/src/wire.rs decodes one element after the other.
use stm32wb_hci.Prelude.{ℕ, zero, suc, ◌≡◌, refl, none, some, List, [], ◌∷◌}
use stm32wb_hci.Wire.Decoding.{HciError, Result, ok, err, ◌>>=◌, Decoder}
use stm32wb_hci.Wire.Sequences.{
  returns, Slots, fill_slots, slot_of, expect_all, finish, decode_array,
}

module _ {T : Type 0} (decode : Decoder T) where
  -- `n` elements, one after the other.
  unfoldable pub decode_each : ℕ → Decoder (List T)
  decode_each zero input = ok ([], input)
  decode_each (suc n) input = do
    (first, rest) ← decode input
    (others, rest) ← decode_each n rest
    ok (first ∷ others, rest)

  -- What the slots are once the elements are decoded, or one is refused.
  abbrev Filled : Result (List T × List ℕ) → Slots T → Type 0
  Filled (ok r) slots =
      (slots.error ≡ none) × (slots.rest ≡ r.1) × (expect_all slots.elements ≡ returns r.0)
  Filled (err e) slots = slots.error ≡ some e

  failed_slots :
      (n : ℕ) (rest : List ℕ) (e : HciError) → (fill_slots decode n rest (some e)).error ≡ some e
  unfolding fill_slots
  failed_slots zero rest e = refl
  failed_slots (suc n) rest e = failed_slots n rest e

  fill_slots-Filled :
      (n : ℕ) (input : List ℕ) → Filled (decode_each n input) (fill_slots decode n input none)
  unfolding fill_slots decode_each expect_all
  fill_slots-Filled zero input = (refl, refl, refl)
  fill_slots-Filled (suc n) input = first_slot (decode input) (λ next. fill_slots-Filled n next)
    where
      first_slot :
          (first : Result (T × List ℕ))
          → ((next : List ℕ) → Filled (decode_each n next) (fill_slots decode n next none))
          → Filled
              (first >>= λ read. (decode_each n read.1 >>= λ more. ok (read.0 ∷ more.0, more.1)))
              (let (slot, rest, error) = slot_of input first in
                let slots = fill_slots decode n rest error in
                record slots { elements = slot ∷ slots.elements })
      first_slot (err e) others = failed_slots n input e
      first_slot (ok (element, next)) others =
          more (decode_each n next) (fill_slots decode n next none) (others next)
        where
          more :
              (r : Result (List T × List ℕ)) (slots : Slots T)
              → Filled r slots
              → Filled
                  (r >>= λ more. ok (element ∷ more.0, more.1))
                  (record slots { elements = some element ∷ slots.elements })
          more (ok r) slots h = (h.0, h.1, rw h.2 refl)
          more (err e) slots h = h

  -- `decode_array` reads `n` elements, one after the other, and the bytes behind them are left; it
  -- returns the first error, and never panics.
  pub decode_array_lem :
      (n : ℕ) (input : List ℕ) → decode_array decode n input ≡ returns (decode_each n input)
  unfolding decode_array
  decode_array_lem n input =
      close (decode_each n input) (fill_slots decode n input none) (fill_slots-Filled n input)
    where
      close :
          (r : Result (List T × List ℕ)) (slots : Slots T)
          → Filled r slots
          → finish slots.error (expect_all slots.elements) slots.rest ≡ returns r
      close (ok r) slots h = rw (h.0, h.2, h.1) refl
      close (err e) slots h = rw h refl
