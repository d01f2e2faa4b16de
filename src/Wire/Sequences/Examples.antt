-- ===== src/Wire/Sequences/Examples.antt =====
-- Runs of the sequences of crates/stm32wb-hci/src/wire.rs, and the theorems there.
use stm32wb_hci.Prelude.{
  ℕ, ◌*◌, ◌≤◌, ◌<◌, ◌≡◌, ◌⊎◌, refl, none, some, List, [], ◌∷◌, ◌++◌, arith, length, take, drop,
}
use stm32wb_hci.Wire.Decoding.{invalid_size, Result, ok, err}
use stm32wb_hci.Wire.Decoding.Sample.{decode_le}
use stm32wb_hci.Wire.Sequences.{
  returns, fill_slots, expect_all, decode_array, BoundedArray, default, push, as_slice, checked,
  chunks_exact, check_chunks, decode, get, element_count,
}
use stm32wb_hci.Wire.Sequences.Arrays.{decode_each, decode_array_lem}
use stm32wb_hci.Wire.Sequences.Bounded.{Holds, push_lem}
use stm32wb_hci.Wire.Sequences.Structures.{decode-get}

two_handles :
    decode_array (decode_le 2) 2 (1 ∷ 0 ∷ 2 ∷ 0 ∷ 9 ∷ []) ≡ returns (ok (1 ∷ 2 ∷ [], 9 ∷ []))
unfolding decode_array fill_slots expect_all decode_le
two_handles = refl

short_array : decode_array (decode_le 2) 2 (1 ∷ 0 ∷ 2 ∷ []) ≡ returns (err invalid_size)
unfolding decode_array fill_slots expect_all decode_le
short_array = refl

abbrev one_byte : BoundedArray ℕ
one_byte = record { elements = some (7 ∷ 7 ∷ 7 ∷ []); len = 1 }

pushed : push 3 default 7 ≡ ok one_byte
unfolding push default
pushed = refl

one_byte-Holds : Holds 3 one_byte (7 ∷ [])
unfolding as_slice
one_byte-Holds = record { fits = (refl, omega arith); content = refl }

-- A structure of two bytes.
pair : List ℕ → Result (ℕ × ℕ)
pair [] = err invalid_size
pair (a ∷ []) = err invalid_size
pair (a ∷ b ∷ []) = ok (a, b)
pair (a ∷ b ∷ c ∷ rest) = err invalid_size

abbrev pair_bytes : List ℕ
pair_bytes = 1 ∷ 2 ∷ 3 ∷ 4 ∷ 5 ∷ []

pairs_decode : decode 32 2 pair pair_bytes 2 ≡ ok (1 ∷ 2 ∷ 3 ∷ 4 ∷ [], 5 ∷ [])
unfolding decode checked chunks_exact check_chunks pair
pairs_decode = refl

decode_array_lem_example :
    decode_array (decode_le 2) 2 (1 ∷ 0 ∷ 2 ∷ 0 ∷ 9 ∷ [])
    ≡ returns (decode_each (decode_le 2) 2 (1 ∷ 0 ∷ 2 ∷ 0 ∷ 9 ∷ []))
decode_array_lem_example = decode_array_lem (decode_le 2) 2 (1 ∷ 0 ∷ 2 ∷ 0 ∷ 9 ∷ [])

push_lem_example :
    ((1 < 3)
      × ((self' : BoundedArray ℕ) × (push 3 one_byte 8 ≡ ok self')
          × Holds 3 self' ((7 ∷ []) ++ (8 ∷ []))))
    ⊎ ((length {A = ℕ} (7 ∷ []) ≡ 3) × (push 3 one_byte 8 ≡ err invalid_size))
push_lem_example = push_lem 3 one_byte (7 ∷ []) 8 one_byte-Holds

decode-get_example :
    ((1 ∷ 2 ∷ 3 ∷ 4 ∷ []) ++ (5 ∷ []) ≡ pair_bytes)
    × (element_count 32 2 pair (1 ∷ 2 ∷ 3 ∷ 4 ∷ []) ≡ 2)
    × (((1 < 2)
          × ((x : ℕ × ℕ) × (get 32 2 pair (1 ∷ 2 ∷ 3 ∷ 4 ∷ []) 1 ≡ some (returns x))
              × (pair (take 2 (drop (1 * 2) (1 ∷ 2 ∷ 3 ∷ 4 ∷ []))) ≡ ok x)))
        ⊎ ((2 ≤ 1) × (get 32 2 pair (1 ∷ 2 ∷ 3 ∷ 4 ∷ []) 1 ≡ none)))
decode-get_example =
    decode-get 32 2 pair pair_bytes 2 (1 ∷ 2 ∷ 3 ∷ 4 ∷ []) (5 ∷ []) 1 (omega arith) pairs_decode
