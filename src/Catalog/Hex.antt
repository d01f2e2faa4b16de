-- ===== src/Catalog/Hex.antt =====
-- crates/stm32wb-catalog/src/hex.rs: codes as text in the catalog's files. `none` is the error.
pub mod Roundtrips
mod Examples
use stm32wb_hci.Prelude.{
  ℕ, ◌^◌, Bool, true, false, Option, none, some, ◌++◌, length, ◌==◌, if◌then◌else◌,
}
use stm32wb_hci.Prelude.Text.{Text, codes, strip_prefix}
use stm32wb_hci.Prelude.Digits.{from_str_radix, hexadecimal}

unfoldable pub serialize_byte : ℕ → Text
serialize_byte value = codes "0x" ++ hexadecimal 2 value

abbrev pub two_digits : Option Text → Option ℕ
two_digits none = none
two_digits (some digits) = if length digits == 2 then from_str_radix (2 ^ 8) 16 digits else none

unfoldable pub deserialize_byte : Text → Option ℕ
deserialize_byte value = two_digits (strip_prefix (codes "0x") value)

unfoldable pub serialize : ℕ → Text
serialize value = codes "0x" ++ hexadecimal 4 value

abbrev pub hex_digits : Option Text → Option ℕ
hex_digits none = none
hex_digits (some digits) = from_str_radix (2 ^ 16) 16 digits

unfoldable pub deserialize : Text → Option ℕ
deserialize value = hex_digits (strip_prefix (codes "0x") value)
