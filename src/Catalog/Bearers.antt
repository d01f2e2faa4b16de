-- ===== src/Catalog/Bearers.antt =====
-- crates/stm32wb-catalog/src/lib.rs: parameters that address an ATT bearer, as text and as the catalog
-- checks them. `N` is the type of a member's name: a text, or a number where the code only compares names.
pub mod Texts
pub mod Checks
mod Examples
use stm32wb_hci.Prelude.{
  ℕ, ◌^◌, Bool, true, false, not, ◌&&◌, ◌||◌, Option, none, some, List, [], ◌∷◌, ◌++◌, leb, ◌==◌,
  if◌then◌else◌,
}
use stm32wb_hci.Prelude.Text.{Text, codes, same_text, strip_prefix, split_once}
use stm32wb_hci.Prelude.Digits.{from_str_radix, hexadecimal}
use stm32wb_hci.Catalog.Layout.{FieldType, scalar, u16, u8, Scalar, Field}

pub record Bearer (N : Type 0) : Type 0 where
  pub member : N
  pub first : ℕ
  pub last : ℕ

unfoldable pub display : Bearer Text → Text
display self =
    self.member
    ++ (codes ": 0x" ++ (hexadecimal 4 self.first ++ (codes "..=0x" ++ hexadecimal 4 self.last)))

abbrev pub hex_digits : Option Text → Option ℕ
hex_digits none = none
hex_digits (some digits) = from_str_radix (2 ^ 16) 16 digits

-- The closure `hex`.
unfoldable pub hex : Text → Option ℕ
hex value = hex_digits (strip_prefix (codes "0x") value)

abbrev pub bearer_of : Text → Option ℕ → Option ℕ → Option (Bearer Text)
bearer_of member none last = none
bearer_of member (some first) none = none
bearer_of member (some first) (some last) =
    some (record { member = member; first = first; last = last })

abbrev pub of_range : Text → Option (Text × Text) → Option (Bearer Text)
of_range member none = none
of_range member (some (first, last)) = bearer_of member (hex first) (hex last)

abbrev pub of_parts : Option (Text × Text) → Option (Bearer Text)
of_parts none = none
of_parts (some (member, range)) = of_range member (split_once (codes "..=") range)

abbrev pub written_so : Text → Option (Bearer Text) → Option (Bearer Text)
written_so source none = none
written_so source (some bearer) = if same_text (display bearer) source then some bearer else none

-- `Bearer::from_str`; `none` is its error.
unfoldable pub from_str : Text → Option (Bearer Text)
unfolding display
from_str source = written_so source (of_parts (split_once (codes ": ") source))

-- The error of `validate_bearers`.
pub data BearerError : Type 0 where
  listed_twice not_u16_member invalid_range : BearerError

-- A layout: its fields, or the reason why the extractor left them unresolved.
pub data Layout : Type 0 where
  fields : List Field → Layout
  unresolved : Layout

abbrev pub is_u16 : FieldType → Bool
is_u16 (scalar u16) = true
is_u16 _ = false

unfoldable pub lists_member : ℕ → List (Bearer ℕ) → Bool
lists_member member [] = false
lists_member member (other ∷ bearers) = (other.member == member) || lists_member member bearers

unfoldable pub has_u16 : ℕ → List Field → Bool
has_u16 member [] = false
has_u16 member (field ∷ others) =
    ((field.name == member) && is_u16 field.ty) || has_u16 member others

abbrev pub is_member : ℕ → Layout → Bool
is_member member (fields list) = has_u16 member list
is_member member unresolved = true

abbrev pub valid_range : Bearer ℕ → Bool
valid_range bearer =
    (bearer.first == 0xea00) && (leb bearer.first bearer.last && leb bearer.last 0xeaff)

-- The loop over the bearers, given those before; `none` is success.
unfoldable pub bearers_loop : Layout → List (Bearer ℕ) → List (Bearer ℕ) → Option BearerError
bearers_loop layout before [] = none
bearers_loop layout before (bearer ∷ bearers) =
    let others = bearers_loop layout (before ++ (bearer ∷ [])) bearers in
    if lists_member bearer.member before
    then some listed_twice
    else if not (is_member bearer.member layout)
    then some not_u16_member
    else if not (valid_range bearer)
    then some invalid_range
    else others

unfoldable pub validate_bearers : Layout → List (Bearer ℕ) → Option BearerError
validate_bearers layout bearers = bearers_loop layout [] bearers
