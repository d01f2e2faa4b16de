-- ===== src/Wire/Sequences.antt =====
-- crates/stm32wb-hci/src/wire.rs: arrays decoded element by element, `BoundedArray`, and the lists of
-- structures that events borrow.
pub mod Arrays
pub mod Bounded
pub mod Structures
mod Examples
use stm32wb_hci.Prelude.{
  ℕ, zero, suc, ◌+◌, ◌-◌, ◌*◌, ◌/◌, ◌^◌, Bool, true, false, Option, none, some, List, [], ◌∷◌, ◌++◌,
  length, set, take, drop, replicate, leb, ltb, ◌==◌, if◌then◌else◌,
}
use stm32wb_hci.Wire.Decoding.{HciError, invalid_size, Result, ok, err, ◌>>=◌, Decoder}

-- A result, or a panic: `expect` on a missing element, or `unreachable!`.
pub data Checked {ℓ} (A : Type ℓ) : Type ℓ where
  returns : A → Checked A
  panics : Checked A

-- The state that the closure of `decode_array` captures, and the slots that it fills.
pub record Slots {ℓ} (T : Type ℓ) : Type ℓ where
  pub elements : List (Option T)
  pub rest : List ℕ
  pub error : Option HciError

module _ {ℓ} {T : Type ℓ} where
  abbrev pub slot_of : List ℕ → Result (T × List ℕ) → Option T × List ℕ × Option HciError
  slot_of rest (ok (element, next)) = (some element, next, none)
  slot_of rest (err failure) = (none, rest, some failure)

  -- One call of the closure: a slot, and what it leaves in `rest` and `error`.
  abbrev pub decode_slot :
      Decoder T → List ℕ → Option HciError → Option T × List ℕ × Option HciError
  decode_slot decode rest (some failure) = (none, rest, some failure)
  decode_slot decode rest none = slot_of rest (decode rest)

  unfoldable pub fill_slots : Decoder T → ℕ → List ℕ → Option HciError → Slots T
  fill_slots decode zero rest error = record { elements = []; rest = rest; error = error }
  fill_slots decode (suc n) rest error =
      let (slot, rest, error) = decode_slot decode rest error in
      let slots = fill_slots decode n rest error in
      record slots { elements = slot ∷ slots.elements }

  -- `elements.map(|element| element.expect(..))`
  unfoldable pub expect_all : List (Option T) → Checked (List T)
  expect_all [] = returns []
  expect_all (none ∷ elements) = panics
  expect_all (some element ∷ elements) = elim (expect_all elements) [
    | returns decoded ↦ returns (element ∷ decoded)
    | panics ↦ panics
  ]

  abbrev pub finish :
      Option HciError → Checked (List T) → List ℕ → Checked (Result (List T × List ℕ))
  finish (some error) elements rest = returns (err error)
  finish none (returns elements) rest = returns (ok (elements, rest))
  finish none panics rest = panics

  unfoldable pub decode_array : Decoder T → ℕ → List ℕ → Checked (Result (List T × List ℕ))
  decode_array decode n input =
      let slots = fill_slots decode n input none in
      finish slots.error (expect_all slots.elements) slots.rest

-- `BoundedArray<T, max_len>`: an array, once there is one, is a list of `max_len` elements.
pub record BoundedArray {ℓ} (T : Type ℓ) : Type ℓ where
  pub elements : Option (List T)
  pub len : ℕ

module _ {ℓ} {T : Type ℓ} where
  unfoldable pub default : BoundedArray T
  default = record { elements = none; len = 0 }

  -- The array of `new` for elements that fit: slots past them repeat the first.
  abbrev pub filled : ℕ → List T → BoundedArray T
  filled max_len [] = default
  filled max_len (first ∷ others) = record {
    elements = some ((first ∷ others) ++ drop (suc (length others)) (replicate max_len first));
    len = suc (length others);
  }

  unfoldable pub new : ℕ → List T → Result (BoundedArray T)
  new max_len elements =
      if ltb max_len (length elements) then err invalid_size else ok (filled max_len elements)

  abbrev pub get_or_insert : Option (List T) → List T → List T
  get_or_insert none inserted = inserted
  get_or_insert (some elements) inserted = elements

  unfoldable pub push : ℕ → BoundedArray T → T → Result (BoundedArray T)
  push max_len self element =
      if self.len == max_len
      then err invalid_size
      else ok (record {
        elements =
            some (set (get_or_insert self.elements (replicate max_len element)) self.len element);
        len = self.len + 1;
      })

  unfoldable pub as_slice : BoundedArray T → List T
  as_slice self = elim self.elements [ none ↦ [] | some elements ↦ take self.len elements ]

-- `checked_mul` and `checked_add` of a usize of `bits` bits.
unfoldable pub checked : ℕ → ℕ → Option ℕ
checked bits n = if ltb n (2 ^ bits) then some n else none

-- `chunks_exact(width)`, with fuel for the number of chunks.
unfoldable pub chunks_exact : ℕ → ℕ → List ℕ → List (List ℕ)
chunks_exact zero width bytes = []
chunks_exact (suc fuel) width bytes =
    let others = chunks_exact fuel width (drop width bytes) in
    if ltb (length bytes) width then [] else take width bytes ∷ others

-- `Elements<T>`, for `T` of `width` bytes that bt-hci's `from_hci_bytes_complete` decodes.
module _ {ℓ} {T : Type ℓ} (bits width : ℕ) (decode_complete : List ℕ → Result T) where
  unfoldable pub check_chunks : List (List ℕ) → Result (Unit {ℓ})
  check_chunks [] = ok tt
  check_chunks (chunk ∷ chunks) = elim (decode_complete chunk) [
    | ok element ↦ check_chunks chunks
    | err e ↦ err e
  ]

  -- The split of the data once every element is checked.
  abbrev pub split_at : List ℕ → ℕ → Result (Unit {ℓ}) → Result (List ℕ × List ℕ)
  split_at input len (err e) = err e
  split_at input len (ok all) = ok (take len input, drop len input)

  abbrev pub decode_len : List ℕ → Option ℕ → Result (List ℕ × List ℕ)
  decode_len input none = err invalid_size
  decode_len input (some len) =
      if ltb (length input) len
      then err invalid_size
      else split_at input len (check_chunks (chunks_exact (length input) width (take len input)))

  -- `Elements::decode`: the bytes of the list, and those behind it.
  unfoldable pub decode : List ℕ → ℕ → Result (List ℕ × List ℕ)
  decode input count = decode_len input (checked bits (count * width))

  abbrev pub unchecked : Result T → Checked T
  unchecked (ok decoded) = returns decoded
  unchecked (err e) = panics

  -- `Elements::element`
  unfoldable pub element : List ℕ → Checked T
  element bytes = unchecked (decode_complete bytes)

  -- `bytes.get(start..end)` and the element there.
  unfoldable pub element_at : List ℕ → ℕ → ℕ → Option (Checked T)
  element_at bytes start end =
      if leb end (length bytes) then some (element (take width (drop start bytes))) else none

  abbrev pub get_end : List ℕ → ℕ → Option ℕ → Option (Checked T)
  get_end bytes start none = none
  get_end bytes start (some end) = element_at bytes start end

  abbrev pub get_start : List ℕ → Option ℕ → Option (Checked T)
  get_start bytes none = none
  get_start bytes (some start) = get_end bytes start (checked bits (start + width))

  unfoldable pub get : List ℕ → ℕ → Option (Checked T)
  get bytes index = get_start bytes (checked bits (index * width))

  unfoldable pub element_count : List ℕ → ℕ
  element_count bytes = length bytes / width
