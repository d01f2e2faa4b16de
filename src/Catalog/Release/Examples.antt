-- ===== src/Catalog/Release/Examples.antt =====
-- Ranges of crates/stm32wb-catalog/src/release.rs and their text, and the theorems there.
use stm32wb_hci.Prelude.{◌≡◌, refl, true, false, none, some, arith}
use stm32wb_hci.Prelude.Text.{codes, split_once, strip_prefix, split}
use stm32wb_hci.Prelude.Digits.{
  from_str_radix, parse_digits, digit_value, decimal, digits_loop, digit_char,
}
use stm32wb_hci.Catalog.Release.{version_le, ReleaseRange, single, overlaps}
use stm32wb_hci.Catalog.Release.Texts.{
  display, cube_tag, from_str, display_range, range_from_str, IsVersion, trim_start, trim_end,
  is_whitespace,
}
use stm32wb_hci.Catalog.Release.Texts.Ranges.{range_from_str-display_range}

-- 1.17.1..=1.19.0 and 1.18.2..=2.0.0
abbrev early : ReleaseRange
early = record {
  first = record { major = 1; minor = 17; patch = 1 };
  last = record { major = 1; minor = 19; patch = 0 };
}

abbrev late : ReleaseRange
late = record {
  first = record { major = 1; minor = 18; patch = 2 };
  last = record { major = 2; minor = 0; patch = 0 };
}

apart : overlaps early (single (record { major = 1; minor = 20; patch = 0 })) ≡ false
unfolding overlaps version_le single
apart = refl

early_le : version_le early.first early.last ≡ true
unfolding version_le
early_le = refl

late_le : version_le late.first late.last ≡ true
unfolding version_le
late_le = refl

range_text : display_range early ≡ codes "1.17.1..=1.19.0"
unfolding display_range display decimal digits_loop digit_char
range_text = refl

tag_text : cube_tag early.last ≡ codes "v1.19.0"
unfolding cube_tag display decimal digits_loop digit_char
tag_text = refl

spaced : range_from_str (codes "1.17.1 ..= v1.19.0") ≡ some early
unfolding range_from_str from_str split split_once strip_prefix from_str_radix parse_digits
    digit_value trim_start trim_end is_whitespace version_le
spaced = refl

two_parts : from_str (codes "1.17") ≡ none
unfolding from_str split strip_prefix from_str_radix parse_digits digit_value
two_parts = refl

reversed : range_from_str (codes "1.19.0..=1.17.1") ≡ none
unfolding range_from_str from_str split split_once strip_prefix from_str_radix parse_digits
    digit_value trim_start trim_end is_whitespace version_le
reversed = refl

early_IsVersion : IsVersion early.first
early_IsVersion = (omega arith, omega arith, omega arith)

range_from_str-display_range_example : range_from_str (display_range early) ≡ some early
range_from_str-display_range_example =
    range_from_str-display_range early early_IsVersion (omega arith, omega arith, omega arith)
      early_le
