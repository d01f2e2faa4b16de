-- ===== src/Catalog/Hex/Examples.antt =====
-- Runs of crates/stm32wb-catalog/src/hex.rs, and the theorem there.
use stm32wb_hci.Prelude.{◌≡◌, refl, none}
use stm32wb_hci.Prelude.Text.{codes, strip_prefix}
use stm32wb_hci.Prelude.Digits.{
  hexadecimal, digits_loop, digit_char, from_str_radix, parse_digits, digit_value,
}
use stm32wb_hci.Catalog.Hex.{deserialize_byte, serialize, deserialize}

opcode : serialize 0xfc81 ≡ codes "0xFC81"
unfolding serialize hexadecimal digits_loop digit_char
opcode = refl

one_digit : deserialize_byte (codes "0x5") ≡ none
unfolding deserialize_byte strip_prefix
one_digit = refl

too_large : deserialize (codes "0x10000") ≡ none
unfolding deserialize strip_prefix from_str_radix parse_digits digit_value
too_large = refl
