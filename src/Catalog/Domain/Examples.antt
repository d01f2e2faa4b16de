-- ===== src/Catalog/Domain/Examples.antt =====
-- Runs of crates/stm32wb-catalog/src/domain.rs, and the theorems there.
use stm32wb_hci.Prelude.{ℕ, ◌≡◌, refl, true, none, some, List, [], ◌∷◌, arith, map, if◌then◌else◌}
use stm32wb_hci.Prelude.Int.{pos, negsuc, pos_part, neg_part}
use stm32wb_hci.Prelude.Text.{
  codes, same_text, strip_prefix, strip_suffix, behind, split_once, rsplit_once, split,
}
use stm32wb_hci.Prelude.Digits.{
  from_str_radix, parse_digits, digit_value, hexadecimal, decimal, digits_loop, digit_char,
}
use stm32wb_hci.Wire.Base.{WireType, plain}
use stm32wb_hci.Wire.Documented.{
  within, furthest, covered_loop, covered, contains, or_empty, values_documented,
}
use stm32wb_hci.Wire.Documented.Values.{encodes, AllOrdered}
use stm32wb_hci.Catalog.Layout.{Field, scalar, u8, width, is_signed}
use stm32wb_hci.Catalog.Bearers.{fields}
use stm32wb_hci.Catalog.Target.{full, light, hci_adv_scan, platform}
use stm32wb_hci.Catalog.Domain.{DomainItem, values, flags, Domain, item_length}
use stm32wb_hci.Catalog.Domain.Labels.{
  platform_after, profiles_named, before_close, qualifiers_of, qualifiers, lists_text, is_condition,
  any_condition, platform_named, lists_profile, verdict,
}
use stm32wb_hci.Catalog.Domain.Items.{
  text_lt, digits_lt, label_lt, item_lt, insert, sort, select, items_of, ok, ranges, single_lengths,
  lengths, as_u64, union_of, bits, range_of,
}
use stm32wb_hci.Catalog.Domain.Items.Sorting.{Ascending}
use stm32wb_hci.Catalog.Domain.Items.Filtering.{
  any_unknown, accepted_items, items_of-accepted_items,
}
use stm32wb_hci.Catalog.Domain.Items.Results.{Accepts, values_accepted}
use stm32wb_hci.Catalog.Domain.Texts.{
  decimal_i64, write_value, display, from_str, parse_value, parse_i64,
}
use stm32wb_hci.Catalog.Domain.Texts.Roundtrips.{from_str-display_item}
use stm32wb_hci.Catalog.Domain.Validation.{
  scalar_range, member_range, find_field, check_items, any_disorder, any_failure, validate_domain,
  not_held,
}
use stm32wb_hci.Catalog.Domain.Validation.Checked.{validated_ranges}

abbrev limited : DomainItem
limited = record {
  first = pos 0;
  last = pos 0x25;
  hex_digits = some 2;
  label = some (codes "for BO variant");
}

abbrev wide : DomainItem
wide = record {
  first = pos 0;
  last = pos 0xff;
  hex_digits = some 2;
  label = some (codes "otherwise");
}

abbrev domain : Domain
domain = record { kind = values; items = limited ∷ wide ∷ []; unit_us = none }

for_beacons : ranges domain hci_adv_scan ≡ ok ((pos 0, pos 0x25) ∷ [])
unfolding ranges items_of select verdict platform_named platform_after behind strip_prefix same_text
    profiles_named lists_profile
for_beacons = refl

for_others : ranges domain light ≡ ok ((pos 0, pos 0xff) ∷ [])
unfolding ranges items_of select verdict platform_named platform_after behind strip_prefix same_text
    profiles_named lists_profile sort insert
for_others = refl

ascending : Ascending item_lt domain.items
unfolding item_lt pos_part neg_part
ascending = ((refl, tt), (tt, tt))

items_of-accepted_items_example : items_of domain hci_adv_scan ≡ (
    if any_unknown hci_adv_scan domain.items
    then none
    else some (accepted_items hci_adv_scan domain.items))
items_of-accepted_items_example = items_of-accepted_items domain hci_adv_scan ascending

abbrev list : List Field
list = record { name = 1; ty = scalar u8 } ∷ []

valid : validate_domain (fields list) 1 domain ≡ none
unfolding validate_domain find_field member_range scalar_range check_items any_disorder any_failure
    item_lt pos_part neg_part items_of select verdict platform_named platform_after behind
    strip_prefix same_text profiles_named lists_profile sort insert width is_signed text_lt label_lt
    digits_lt platform
valid = refl

not_encodable :
    validate_domain
      (fields list)
      1
      (record { kind = values; items = record wide { last = pos 0x100 } ∷ []; unit_us = none })
    ≡ some not_held
unfolding validate_domain find_field member_range scalar_range check_items pos_part neg_part
not_encodable = refl

validated_ranges_example : ranges domain full ≡ ok (map range_of (accepted_items full domain.items))
validated_ranges_example = validated_ranges list 1 domain full valid refl

abbrev percent : WireType
percent = record (plain 1) { ranges = some ((pos 0, pos 100) ∷ []) }

covered_percent : values_documented percent ((pos 0, pos 0xff) ∷ []) ≡ true
unfolding values_documented covered covered_loop furthest pos_part neg_part
covered_percent = refl

encoded_fifty : encodes percent (pos 50) ≡ true
unfolding encodes within contains pos_part neg_part
encoded_fifty = refl

ordered_percent : AllOrdered (or_empty percent.ranges)
unfolding pos_part neg_part
ordered_percent = (omega arith, tt)

values_accepted_example : Accepts domain light (pos 50)
values_accepted_example =
    values_accepted percent domain light ((pos 0, pos 0xff) ∷ []) (pos 50) refl ordered_percent
      ascending for_others covered_percent encoded_fifty

abbrev counted_type : DomainItem
counted_type = record {
  first = pos 1;
  last = pos 1;
  hex_digits = some 2;
  label = some (codes "Static Random Address; 6 bytes");
}

abbrev address : Domain
address = record { kind = values; items = counted_type ∷ wide ∷ []; unit_us = none }

address_length : lengths address light ≡ ok ((pos 1, 6) ∷ [])
unfolding lengths ranges items_of select verdict platform_named platform_after behind strip_prefix
    same_text profiles_named lists_profile sort insert strip_suffix any_condition qualifiers
    single_lengths item_length rsplit_once from_str_radix parse_digits digit_value pos_part neg_part
    item_lt before_close qualifiers_of lists_text is_condition split text_lt digits_lt label_lt
address_length = refl

abbrev flag : ℕ → DomainItem
flag n = record { first = pos n; last = pos n; hex_digits = some 2; label = none }

abbrev options : Domain
options = record { kind = flags; items = flag 1 ∷ flag 4 ∷ []; unit_us = none }

five : bits options light ≡ ok 5
unfolding bits items_of select verdict platform_named platform_after behind strip_prefix same_text
    profiles_named lists_profile sort insert strip_suffix any_condition qualifiers pos_part neg_part
    item_lt before_close qualifiers_of split as_u64 union_of text_lt digits_lt label_lt
five = refl

written : display limited ≡ codes "0x00..=0x25: for BO variant"
unfolding display write_value as_u64 hexadecimal digits_loop digit_char pos_part neg_part
written = refl

negative :
    from_str (codes "-127..=20: Tx power")
    ≡ some (record {
      first = negsuc 126;
      last = pos 20;
      hex_digits = none;
      label = some (codes "Tx power");
    })
unfolding from_str display write_value decimal_i64 decimal digits_loop digit_char parse_value
    parse_i64 from_str_radix parse_digits digit_value split_once strip_prefix same_text pos_part
    neg_part
negative = refl

from_str-display_item_example : from_str (display limited) ≡ some limited
from_str-display_item_example =
    from_str-display_item limited (unfold pos_part neg_part in refl) (omega arith, omega arith)
      (omega arith, omega arith) (omega arith, omega arith)
