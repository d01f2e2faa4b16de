-- ===== src/AdvData.antt =====
-- crates/stm32wb-hci/src/adv_data.rs: the builder of advertising data. An array of `n` bytes is a list
-- of that length; a write out of its bounds is Rust's panic.
pub mod AdType
pub mod Methods
mod Write
pub mod Append
pub mod Uuids
pub mod Structures
pub mod Builder
mod Examples
use mathlib.Core.List.{flatten}
use stm32wb_hci.Prelude.{
  ℕ, zero, suc, ◌+◌, ◌-◌, ◌*◌, ◌%◌, ◌≤◌, ◌<◌, ◌≡◌, Bool, true, false, ◌||◌, Option, none, some,
  List, [], ◌∷◌, ◌++◌, map, length, take, drop, replicate, get_or, leb, ltb, if◌then◌else◌,
}
use stm32wb_hci.Prelude.Bytes.{to_le_bytes}

-- The error of `crate::wire::TooLong`; its `field` is one of two names.
pub data TooLongField : Type 0 where
  advertising_data local_name : TooLongField

pub record TooLong : Type 0 where
  pub field : TooLongField
  pub len : ℕ
  pub capacity : ℕ

-- `Result<A, TooLong>`, or a panic.
pub data Outcome {ℓ} (A : Type ℓ) : Type ℓ where
  ok : A → Outcome A
  err : TooLong → Outcome A
  panic : Outcome A

infixl 5 ◌>>=◌
abbrev pub ◌>>=◌ {ℓ κ} : {A : Type ℓ} {B : Type κ} → Outcome A → (A → Outcome B) → Outcome B
ok a >>= f = f a
err e >>= f = err e
panic >>= f = panic

pub record AdvData : Type 0 where
  pub bytes : List ℕ
  pub len : ℕ

-- `bytes[at..at + part.len()].copy_from_slice(part)`
unfoldable pub write_slice : List ℕ → ℕ → List ℕ → Outcome (List ℕ)
write_slice bytes at part =
    if leb (at + length part) (length bytes)
    then ok (take at bytes ++ (part ++ drop (at + length part) bytes))
    else panic

-- The loop over the parts, from the position `at`: the bytes and the position behind them.
unfoldable pub write_parts : List ℕ → ℕ → List (List ℕ) → Outcome (List ℕ × ℕ)
write_parts bytes at [] = ok (bytes, at)
write_parts bytes at (part ∷ parts) = do
  bytes ← write_slice bytes at part
  write_parts bytes (at + length part) parts

unfoldable pub parts_len : List (List ℕ) → ℕ
parts_len [] = 0
parts_len (part ∷ parts) = length part + parts_len parts

-- The methods of `AdvData<n>`.
module _ (n : ℕ) where
  unfoldable pub empty : AdvData
  empty = record { bytes = replicate n 0; len = 0 }

  -- `&self.bytes[..self.len]`, which is in bounds while `len` is at most `n`.
  unfoldable pub as_bytes : AdvData → List ℕ
  as_bytes self = take self.len self.bytes

  abbrev pub too_long : TooLongField → ℕ → TooLong
  too_long field needed = record { field = field; len = needed; capacity = n }

  unfoldable pub structure : AdvData → ℕ → List (List ℕ) → Outcome AdvData
  structure self ad_type parts =
      let data_len = parts_len parts in
      let needed = self.len + 2 + data_len in
      if ltb n needed || ltb 254 data_len then err (too_long advertising_data needed) else do
        bytes ← write_slice self.bytes self.len (((data_len + 1) % 256) ∷ [])
        bytes ← write_slice bytes (self.len + 1) (ad_type ∷ [])
        (bytes, at) ← write_parts bytes (self.len + 2) parts
        ok (record { bytes = bytes; len = at })

  -- The loop over the UUIDs, which moves `len`.
  unfoldable pub write_uuids : AdvData → List ℕ → Outcome AdvData
  write_uuids this [] = ok this
  write_uuids this (uuid ∷ uuids) = do
    bytes ← write_slice this.bytes this.len (to_le_bytes 2 uuid)
    write_uuids (record { bytes = bytes; len = this.len + 2 }) uuids

  -- `this.bytes[this.len - 2] += 2 * uuids.len() as u8`. A u8 wraps around here, as in a release build; with at
  -- most 127 UUIDs it does not.
  unfoldable pub add_to_length : AdvData → ℕ → Outcome AdvData
  add_to_length this count = do
    bytes ←
        write_slice this.bytes (this.len - 2)
          (((get_or this.bytes (this.len - 2) 0 + 2 * (count % 256) % 256) % 256) ∷ [])
    ok (record { bytes = bytes; len = this.len })

  unfoldable pub uuid16_list : AdvData → ℕ → List ℕ → Outcome AdvData
  uuid16_list self ad_type uuids =
      let needed = self.len + 2 + 2 * length uuids in
      if ltb n needed || ltb 127 (length uuids) then err (too_long advertising_data needed) else do
        this ← structure self ad_type []
        this ← add_to_length this (length uuids)
        write_uuids this uuids
