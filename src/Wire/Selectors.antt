-- ===== src/Wire/Selectors.antt =====
-- crates/stm32wb-hci/src/wire.rs: the alternatives of unions, UUIDs, ATT bearers, and the comparison of
-- names. An unsigned integer is a number below a power of two.
pub mod Unions
pub mod Bearers
mod Examples
use stm32wb_hci.Prelude.{
  ℕ, zero, suc, ◌+◌, ◌-◌, ◌*◌, ◌/◌, ◌%◌, ◌^◌, Bool, true, false, not, ◌&&◌, ◌||◌, Option, none,
  some, List, [], ◌∷◌, length, leb, ltb, ◌==◌, if◌then◌else◌,
}
use stm32wb_hci.Prelude.Bytes.{to_le_bytes}
use stm32wb_hci.Wire.Decoding.{HciError, invalid_value, Result, ok, err, ◌>>=◌, Decoder}

-- The loop of `union_matches` over the catalog's alternatives: the width of the last one with the
-- selector, or the default.
unfoldable pub catalog_width : ℕ → List (ℕ × ℕ) → Option ℕ → Option ℕ
catalog_width selector [] catalog = catalog
catalog_width selector ((explicit, width) ∷ others) catalog =
    catalog_width selector others (if explicit == selector then some width else catalog)

-- `match catalog { Some(catalog) if catalog == width => {}, _ => return false }`
abbrev pub is_width : Option ℕ → ℕ → Bool
is_width none width = false
is_width (some catalog) width = catalog == width

-- The loop over the alternatives of the type.
unfoldable pub variants_match : List (ℕ × ℕ) → Option ℕ → ℕ → List (ℕ × ℕ) → Bool
variants_match explicit default selector_width [] = true
variants_match explicit default selector_width ((selector, width) ∷ variants) =
    let others = variants_match explicit default selector_width variants in
    if ltb selector_width 8 && not (selector / 2 ^ (8 * selector_width) == 0)
    then false
    else if is_width (catalog_width selector explicit default) width
    then others
    else false

-- `found |= T::VARIANTS[index].0 == selector` over the alternatives.
unfoldable pub is_variant : ℕ → List (ℕ × ℕ) → Bool → Bool
is_variant selector [] found = found
is_variant selector ((variant, width) ∷ variants) found =
    is_variant selector variants (found || (variant == selector))

unfoldable pub all_variants : List (ℕ × ℕ) → List (ℕ × ℕ) → Bool
all_variants variants [] = true
all_variants variants ((selector, width) ∷ explicit) =
    let others = all_variants variants explicit in
    if not (is_variant selector variants false) then false else others

unfoldable pub union_matches : List (ℕ × ℕ) → List (ℕ × ℕ) → Option ℕ → ℕ → Bool
union_matches variants explicit default selector_width =
    if variants_match explicit default selector_width variants
    then all_variants variants explicit
    else false

pub data Uuid : Type 0 where
  uuid16 : ℕ → Uuid
  uuid128 : List ℕ → Uuid

-- `Uuid::VARIANTS`
abbrev pub uuid_variants : List (ℕ × ℕ)
uuid_variants = (1, 2) ∷ (2, 16) ∷ []

unfoldable pub selector : Uuid → ℕ
selector (uuid16 uuid) = 1
selector (uuid128 uuid) = 2

unfoldable pub size : Uuid → ℕ
size (uuid16 uuid) = 2
size (uuid128 uuid) = 16

-- The bytes that `write_hci` writes.
unfoldable pub write_hci : Uuid → List ℕ
write_hci (uuid16 uuid) = to_le_bytes 2 uuid
write_hci (uuid128 uuid) = uuid

-- `From<u128>`
unfoldable pub from_u128 : ℕ → Uuid
from_u128 uuid = uuid128 (to_le_bytes 16 uuid)

pub record AttBearer : Type 0 where
  pub raw : ℕ

abbrev pub first_enhanced : ℕ
first_enhanced = 0xea00

abbrev pub last_connection : ℕ
last_connection = 0x0eff

-- `LAST_ENHANCED`, which `att_bearer_range!` generates for the selected release, is a parameter.
module _ (last_enhanced : ℕ) where
  unfoldable pub from_raw : ℕ → Option AttBearer
  from_raw raw =
      if leb raw last_connection || (leb first_enhanced raw && leb raw last_enhanced)
      then some (record { raw = raw })
      else none

  unfoldable pub enhanced : ℕ → Option AttBearer
  unfolding from_raw
  enhanced channel_index = from_raw (first_enhanced + channel_index)

  unfoldable pub connection : AttBearer → Option ℕ
  connection self = if leb self.raw last_connection then some self.raw else none

  -- The cast is to u8.
  unfoldable pub channel_index : AttBearer → Option ℕ
  channel_index self =
      if leb first_enhanced self.raw then some ((self.raw - first_enhanced) % 2 ^ 8) else none

  abbrev pub bearer_of : Option AttBearer → List ℕ → Result (AttBearer × List ℕ)
  bearer_of none rest = err invalid_value
  bearer_of (some bearer) rest = ok (bearer, rest)

  -- `from_hci_bytes`; `decode_u16` is bt-hci's decoder of a u16.
  unfoldable pub decode_bearer : Decoder ℕ → Decoder AttBearer
  decode_bearer decode_u16 input = do (raw, rest) ← decode_u16 input; bearer_of (from_raw raw) rest

  unfoldable pub write_bearer : AttBearer → List ℕ
  write_bearer self = to_le_bytes 2 self.raw

-- The loop of `same_name` over bytes of one length.
unfoldable pub same_bytes : List ℕ → List ℕ → Bool
same_bytes [] right = true
same_bytes (a ∷ left) [] = false
same_bytes (a ∷ left) (b ∷ right) =
    let others = same_bytes left right in if not (a == b) then false else others

unfoldable pub same_name : List ℕ → List ℕ → Bool
same_name left right = if not (length left == length right) then false else same_bytes left right
