-- ===== src/Catalog/Bearers/Examples.antt =====
-- Runs of the bearers of crates/stm32wb-catalog/src/lib.rs, and the theorems there.
use stm32wb_hci.Prelude.{◌≡◌, refl, none, some, List, [], ◌∷◌, arith}
use stm32wb_hci.Prelude.Bytes.{All}
use stm32wb_hci.Prelude.Text.{Text, codes, same_text, strip_prefix, split_once}
use stm32wb_hci.Prelude.Digits.{
  from_str_radix, hexadecimal, parse_digits, digit_value, digits_loop, digit_char,
}
use stm32wb_hci.Prelude.{ℕ}
use stm32wb_hci.Catalog.Layout.{scalar, u8, u16}
use stm32wb_hci.Catalog.Bearers.{
  Bearer, display, hex, from_str, Layout, fields, invalid_range, lists_member, has_u16,
  bearers_loop, validate_bearers,
}
use stm32wb_hci.Catalog.Bearers.Texts.{from_str-display}
use stm32wb_hci.Catalog.Bearers.Checks.{IsChecked, Distinct, validate_bearers_sound}

abbrev named : Bearer Text
named = record { member = codes "Handle"; first = 0xea00; last = 0xea3f }

written : display named ≡ codes "Handle: 0xEA00..=0xEA3F"
unfolding display hexadecimal digits_loop digit_char
written = refl

lower_case : from_str (codes "Handle: 0xea00..=0xea3f") ≡ none
unfolding from_str display hex split_once strip_prefix from_str_radix parse_digits digit_value
    hexadecimal digits_loop digit_char same_text
lower_case = refl

from_str-display_example : from_str (display named) ≡ some named
from_str-display_example =
    from_str-display named
      (omega arith, (omega arith, (omega arith, (omega arith, (omega arith, (omega arith, tt))))))
      (omega arith) (omega arith)

abbrev layout : Layout
layout = fields (record { name = 1; ty = scalar u8 } ∷ record { name = 2; ty = scalar u16 } ∷ [])

abbrev one_bearer : List (Bearer ℕ)
one_bearer = record { member = 2; first = 0xea00; last = 0xea05 } ∷ []

accepted : validate_bearers layout one_bearer ≡ none
unfolding validate_bearers bearers_loop lists_member has_u16
accepted = refl

past_channels :
    validate_bearers layout (record { member = 2; first = 0xea00; last = 0xeb00 } ∷ [])
    ≡ some invalid_range
unfolding validate_bearers bearers_loop lists_member has_u16
past_channels = refl

validate_bearers_sound_example : All (IsChecked layout) one_bearer × Distinct one_bearer
validate_bearers_sound_example = validate_bearers_sound layout one_bearer accepted
