-- ===== src/Wire/Types.antt =====
-- crates/stm32wb-hci/src/wire.rs: `WireValue`, `OrUnknown`, and the types that the macros
-- `wire_values!`, `wire_flags!`, `wire_range!` and `wire_duration!` declare, over the arguments of the
-- macro. An integer of `bits` bits is a number below `2 ^ bits`.
pub mod Fallback
pub mod Enums
pub mod Flags
pub mod Ranges
pub mod Durations
mod Examples
use Prim.Native.Nat.{bit_and, bit_or}
use stm32wb_hci.Prelude.{
  ℕ, zero, suc, ◌+◌, ◌-◌, ◌*◌, ◌/◌, ◌%◌, ◌^◌, ◌≡◌, ◌⊎◌, Bool, true, false, not, ◌&&◌, ◌||◌, Option,
  none, some, List, [], ◌∷◌, is_some, ltb, leb, ◌==◌, if◌then◌else◌, set, length, get_elem?,
  replicate,
}
use stm32wb_hci.Prelude.Bytes.{to_le_bytes}
use stm32wb_hci.Wire.Decoding.{HciError, invalid_value, Result, ok, err, ◌>>=◌, Decoder}

-- The trait `WireValue`; `Raw` is an unsigned integer.
pub record WireValue {ℓ} (T : Type ℓ) : Type ℓ where
  pub from_raw : ℕ → Option T
  pub to_raw : T → ℕ

pub data OrUnknown {ℓ} (T : Type ℓ) : Type ℓ where
  known : T → OrUnknown T
  unknown : ℕ → OrUnknown T

-- What decoding and encoding owe one another, over the values of a type that can be built.
pub record IsLawful {ℓ} {T : Type ℓ} (Valid : T → Type ℓ) (w : WireValue T) : Type ℓ where
  pub reads : (value : T) → Valid value → w.from_raw (w.to_raw value) ≡ some value
  pub keeps : (raw : ℕ) (value : T) → w.from_raw raw ≡ some value → w.to_raw value ≡ raw
  pub valid : (raw : ℕ) (value : T) → w.from_raw raw ≡ some value → Valid value

-- Whether a value stands in a list.
abbrev pub In : {A : Type 0} → A → List A → Type 0
In a [] = ⊥
In a (x ∷ xs) = (a ≡ x) ⊎ In a xs

module _ {ℓ} {T : Type ℓ} where
  unfoldable pub known_value : OrUnknown T → Option T
  known_value (known value) = some value
  known_value (unknown raw) = none

  module _ (w : WireValue T) where
    unfoldable pub or_unknown_raw : OrUnknown T → ℕ
    or_unknown_raw (known value) = w.to_raw value
    or_unknown_raw (unknown raw) = raw

    abbrev pub or_unknown : ℕ → OrUnknown T
    or_unknown raw = elim (w.from_raw raw) [ some value ↦ known value | none ↦ unknown raw ]

    unfoldable pub decode_or_unknown : Decoder ℕ → Decoder (OrUnknown T)
    decode_or_unknown decode_raw input = do
      (raw, rest) ← decode_raw input
      ok (or_unknown raw, rest)

-- `impl WireValue for bool`
unfoldable pub bool_from_raw : ℕ → Option Bool
bool_from_raw zero = some false
bool_from_raw (suc zero) = some true
bool_from_raw _ = none

unfoldable pub bool_to_raw : Bool → ℕ
bool_to_raw false = 0
bool_to_raw true = 1

-- `wire_values!`: an enum `V` whose variants present in the target are `all`, in order.
module _ {ℓ} {V : Type ℓ} (as_repr : V → ℕ) where
  unfoldable pub enum_try_from : List V → ℕ → Result V
  enum_try_from [] value = err invalid_value
  enum_try_from (variant ∷ all) value =
      if value == as_repr variant then ok variant else enum_try_from all value

-- `.ok()`
abbrev pub ok? {ℓ} : {A : Type ℓ} → Result A → Option A
ok? (ok a) = some a
ok? (err e) = none

module _ {ℓ} {V : Type ℓ} (as_repr : V → ℕ) (all : List V) where
  abbrev pub enum_value : WireValue V
  enum_value = record { from_raw = λ raw. ok? (enum_try_from as_repr all raw); to_raw = as_repr }

  unfoldable pub enum_write : ℕ → V → List ℕ
  enum_write width variant = to_le_bytes width (as_repr variant)

  unfoldable pub enum_decode : Decoder ℕ → Decoder V
  enum_decode decode_raw input = do
    (raw, rest) ← decode_raw input
    value ← enum_try_from as_repr all raw
    ok (value, rest)

-- `present_count` and `present`: the items of the array `items` are set from the front.
unfoldable pub present_count {ℓ} : {A : Type ℓ} → List (Option A) → ℕ
present_count [] = 0
present_count (item ∷ all) = (if is_some item then 1 else 0) + present_count all

unfoldable pub present_loop {ℓ} : {A : Type ℓ} → ℕ → List (Option A) → ℕ → List A → List A
present_loop n [] count items = items
present_loop n (none ∷ all) count items =
    if ltb count n then present_loop n all count items else items
present_loop n (some item ∷ all) count items =
    if ltb count n then present_loop n all (count + 1) (set items count item) else items

unfoldable pub present {ℓ} : {A : Type ℓ} → List (Option A) → ℕ → A → List A
present all n zero_item = present_loop n all 0 (replicate n zero_item)

-- `wire_flags!`: a value is its bits, of an integer of `bits` bits, and `all` is every flag.
module _ (bits all : ℕ) where
  unfoldable pub from_bits : ℕ → Option ℕ
  from_bits value = if bit_and value (2 ^ bits - 1 - all) == 0 then some value else none

  abbrev pub flags_value : WireValue ℕ
  flags_value = record { from_raw = from_bits; to_raw = λ value. value }

unfoldable pub contains : ℕ → ℕ → Bool
contains self other = bit_and self other == other

unfoldable pub is_empty : ℕ → Bool
is_empty self = self == 0

unfoldable pub union : ℕ → ℕ → ℕ
union self other = bit_or self other

unfoldable pub intersection : ℕ → ℕ → ℕ
intersection self other = bit_and self other

-- `wire_range!` and the `@encoding` that it shares with `wire_duration!`: a value is the integer that
-- it wraps, from `low` to `high` or one of `specials`.
module _ (low high : ℕ) where
  unfoldable pub new : ℕ → Option ℕ
  new value = if leb low value && leb value high then some value else none

  unfoldable pub range_try_from : List ℕ → ℕ → Result ℕ
  range_try_from [] raw = if leb low raw && leb raw high then ok raw else err invalid_value
  range_try_from (special ∷ rest) raw =
      if raw == special then ok special else range_try_from rest raw

  abbrev pub range_value : List ℕ → WireValue ℕ
  range_value specials = record {
    from_raw = λ raw. ok? (range_try_from specials raw);
    to_raw = λ value. value;
  }

  unfoldable pub range_decode : List ℕ → Decoder ℕ → Decoder ℕ
  range_decode specials decode_raw input = do
    (raw, rest) ← decode_raw input
    value ← range_try_from specials raw
    ok (value, rest)

-- `wire_duration!` over an integer of `bits` bits and a unit in microseconds.
module _ (bits unit low high : ℕ) where
  unfoldable pub from_units : ℕ → Option ℕ
  from_units units = if leb low units && leb units high then some units else none

  unfoldable pub from_micros : ℕ → Option ℕ
  unfolding from_units
  from_micros micros =
      if not (micros % unit == 0) || ltb high (micros / unit)
      then none
      else from_units (micros / unit % 2 ^ bits)

  -- `checked_mul` of u64
  unfoldable pub from_millis : ℕ → Option ℕ
  unfolding from_micros
  from_millis millis = if ltb (millis * 1000) (2 ^ 64) then from_micros (millis * 1000) else none

  unfoldable pub as_micros : ℕ → Option ℕ
  unfolding from_units
  as_micros value = elim (from_units value) [ some _ ↦ some (value * unit) | none ↦ none ]
