-- ===== src/Catalog/Domain/Texts.antt =====
-- crates/stm32wb-catalog/src/domain.rs: items as text, and a domain as the fields that a file has of it. An
-- i64 is an integer between -2^63 and 2^63 - 1.
pub mod Values
pub mod Roundtrips
use stm32wb_hci.Prelude.{
  ℕ, zero, suc, ◌+◌, ◌^◌, ◌≤◌, ◌<◌, Bool, true, false, not, ◌&&◌, ◌||◌, Option, none, some, List,
  [], ◌∷◌, ◌++◌, length, ltb, leb, ◌==◌, is_some, if◌then◌else◌,
}
use stm32wb_hci.Prelude.Int.{ℤ, pos, negsuc, leb_ℤ, eqb_ℤ}
use stm32wb_hci.Prelude.Text.{Text, codes, same_text, strip_prefix, split_once}
use stm32wb_hci.Prelude.Digits.{from_str_radix, decimal, hexadecimal}
use stm32wb_hci.Catalog.Domain.{DomainItem, DomainKind, values, flags, Domain}
use stm32wb_hci.Catalog.Domain.Items.{as_u64}

-- `{}` of an i64
unfoldable pub decimal_i64 : ℤ → Text
decimal_i64 (pos n) = decimal n
decimal_i64 (negsuc n) = codes "-" ++ decimal (suc n)

unfoldable pub write_value : Option ℕ → ℤ → Text
unfolding as_u64
write_value (some digits) value = codes "0x" ++ hexadecimal digits (as_u64 value)
write_value none value = decimal_i64 value

abbrev pub write_last : DomainItem → Text
write_last self =
    if eqb_ℤ self.last self.first then [] else codes "..=" ++ write_value self.hex_digits self.last

abbrev pub write_label : Option Text → Text
write_label none = []
write_label (some label) = codes ": " ++ label

-- `Display::fmt` of an item
unfoldable pub display : DomainItem → Text
display self = write_value self.hex_digits self.first ++ (write_last self ++ write_label self.label)

-- Whether every character is a digit or a letter in upper case.
unfoldable pub all_upper : Text → Bool
all_upper [] = true
all_upper (c ∷ text) = ((leb 48 c && leb c 57) || (leb 65 c && leb c 90)) && all_upper text

-- `i64::try_from`, and the digits that the value is written with.
abbrev pub hex_value : Text → Option ℕ → Option (ℤ × Option ℕ)
hex_value digits none = none
hex_value digits (some value) =
    if ltb value (2 ^ 63) && all_upper digits then some (pos value, some (length digits)) else none

abbrev pub negated : Option ℕ → Option ℤ
negated none = none
negated (some zero) = some (pos 0)
negated (some (suc n)) = some (negsuc n)

abbrev pub not_negated : Option ℕ → Option ℤ
not_negated none = none
not_negated (some n) = some (pos n)

-- The digits behind a minus sign, which have no sign of their own.
abbrev pub unsigned : Text → Option ℕ
unsigned [] = none
unsigned (c ∷ text) = if c == 43 then none else from_str_radix (2 ^ 63 + 1) 10 (c ∷ text)

-- `parse` of an i64
unfoldable pub parse_i64 : Text → Option ℤ
parse_i64 [] = none
parse_i64 (c ∷ text) =
    if c == 45 then negated (unsigned text) else not_negated (from_str_radix (2 ^ 63) 10 (c ∷ text))

abbrev pub decimal_value : Option ℤ → Option (ℤ × Option ℕ)
decimal_value none = none
decimal_value (some value) = some (value, none)

abbrev pub value_of : Text → Option Text → Option (ℤ × Option ℕ)
value_of text none = decimal_value (parse_i64 text)
value_of text (some digits) =
    if not (length digits == 0) && leb (length digits) 16
    then hex_value digits (from_str_radix (2 ^ 64) 16 digits)
    else none

unfoldable pub parse_value : Text → Option (ℤ × Option ℕ)
parse_value text = value_of text (strip_prefix (codes "0x") text)

abbrev pub same_style : Option ℕ → Option ℕ → Bool
same_style none none = true
same_style none (some b) = false
same_style (some a) none = false
same_style (some a) (some b) = true

abbrev pub item_of : Option Text → ℤ × Option ℕ → ℤ → DomainItem
item_of label (first, digits) last = record {
  first = first;
  last = last;
  hex_digits = digits;
  label = label;
}

abbrev pub with_last : Option Text → ℤ × Option ℕ → Option (ℤ × Option ℕ) → Option DomainItem
with_last label first none = none
with_last label first (some (value, digits)) =
    if same_style digits first.1 then some (item_of label first value) else none

abbrev pub with_first : Option Text → Option (ℤ × Option ℕ) → Option Text → Option DomainItem
with_first label none last = none
with_first label (some first) none = some (item_of label first first.0)
with_first label (some first) (some last) = with_last label first (parse_value last)

abbrev pub of_values : Option Text → Text → Option (Text × Text) → Option DomainItem
of_values label text none = with_first label (parse_value text) none
of_values label text (some (first, last)) = with_first label (parse_value first) (some last)

abbrev pub of_source : Text → Option (Text × Text) → Option DomainItem
of_source source none = of_values none source (split_once (codes "..=") source)
of_source source (some (text, label)) = of_values (some label) text (split_once (codes "..=") text)

abbrev pub written_so : Text → Option DomainItem → Option DomainItem
written_so source none = none
written_so source (some item) =
    if leb_ℤ item.first item.last && same_text (display item) source then some item else none

-- `DomainItem::from_str`; `none` is its error.
unfoldable pub from_str : Text → Option DomainItem
unfolding display
from_str source = written_so source (of_source source (split_once (codes ": ") source))

abbrev pub Items : Type 0
Items = Option (List DomainItem)

abbrev pub split_kind : DomainKind → List DomainItem → Items × Items
split_kind values items = (some items, none)
split_kind flags items = (none, some items)

unfoldable pub split_items : Domain → Items × Items
split_items domain = split_kind domain.kind domain.items

-- `none` is the error that not exactly one of the lists is set.
unfoldable pub join_items : Items → Items → Option ℕ → Option Domain
join_items (some items) none unit = some (record { kind = values; items = items; unit_us = unit })
join_items none (some items) unit = some (record { kind = flags; items = items; unit_us = unit })
join_items none none unit = none
join_items (some a) (some b) unit = none
