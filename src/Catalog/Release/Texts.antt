-- ===== src/Catalog/Release/Texts.antt =====
-- crates/stm32wb-catalog/src/release.rs: versions and ranges as text, in files, tags and Cargo features.
pub mod Roundtrips
pub mod Ranges
use stm32wb_hci.Prelude.{
  ℕ, ◌^◌, ◌<◌, Bool, true, false, not, ◌||◌, ◌&&◌, Option, none, some, List, [], ◌∷◌, ◌++◌, ltb,
  leb, ◌==◌, if◌then◌else◌,
}
use stm32wb_hci.Prelude.Text.{Text, codes, strip_prefix, split, split_once}
use stm32wb_hci.Prelude.Digits.{parse_u16, decimal}
use stm32wb_hci.Catalog.Release.{Version, version_le, ReleaseRange, single}

abbrev pub dot : Text
dot = codes "."

abbrev pub underscore : Text
underscore = codes "_"

-- Three numbers with a separator between them.
abbrev pub joined : Text → Version → Text
joined separator version =
    decimal version.major
    ++ (separator ++ (decimal version.minor ++ (separator ++ decimal version.patch)))

unfoldable pub display : Version → Text
display version = joined dot version

unfoldable pub cube_tag : Version → Text
cube_tag version = codes "v" ++ display version

unfoldable pub feature_name : Version → Text → Text
feature_name version prefix = prefix ++ joined underscore version

abbrev pub version_of : Option ℕ → Option ℕ → Option ℕ → Option Version
version_of none minor patch = none
version_of (some major) none patch = none
version_of (some major) (some minor) none = none
version_of (some major) (some minor) (some patch) =
    some (record { major = major; minor = minor; patch = patch })

-- Exactly three parts, each a u16.
abbrev pub three_parts : List Text → Option Version
three_parts [] = none
three_parts (major ∷ []) = none
three_parts (major ∷ minor ∷ []) = none
three_parts (major ∷ minor ∷ patch ∷ []) =
    version_of (parse_u16 major) (parse_u16 minor) (parse_u16 patch)
three_parts (major ∷ minor ∷ patch ∷ part ∷ parts) = none

abbrev pub feature_parts : Option Text → Option Version
feature_parts none = none
feature_parts (some rest) = three_parts (split (λ c. c == 95) rest)

unfoldable pub from_feature_name : Text → Text → Option Version
from_feature_name feature prefix = feature_parts (strip_prefix prefix feature)

abbrev pub or_text : Option Text → Text → Text
or_text none value = value
or_text (some digits) value = digits

-- `Version::from_str`; `none` is its error.
unfoldable pub from_str : Text → Option Version
from_str value = three_parts (split (λ c. c == 46) (or_text (strip_prefix (codes "v") value) value))

abbrev pub same_version : Version → Version → Bool
same_version a b = (a.major == b.major) && ((a.minor == b.minor) && (a.patch == b.patch))

unfoldable pub display_range : ReleaseRange → Text
display_range range =
    if same_version range.first range.last
    then display range.first
    else display range.first ++ (codes "..=" ++ display range.last)

-- `str::trim`: the characters with the property White_Space.
unfoldable pub is_whitespace : ℕ → Bool
is_whitespace c =
    (leb 9 c && leb c 13)
    || ((c == 32)
        || ((c == 133)
            || ((c == 160)
                || ((c == 0x1680)
                    || ((leb 0x2000 c && leb c 0x200a)
                        || ((c == 0x2028)
                            || ((c == 0x2029)
                                || ((c == 0x202f) || ((c == 0x205f) || (c == 0x3000))))))))))

unfoldable pub trim_start : Text → Text
trim_start [] = []
trim_start (c ∷ text) = let rest = trim_start text in if is_whitespace c then rest else c ∷ text

-- What stands behind a character is dropped if all of it is white space.
abbrev pub keep : ℕ → Text → Text
keep c [] = if is_whitespace c then [] else c ∷ []
keep c (d ∷ text) = c ∷ d ∷ text

unfoldable pub trim_end : Text → Text
trim_end [] = []
trim_end (c ∷ text) = keep c (trim_end text)

abbrev pub trim : Text → Text
trim text = trim_end (trim_start text)

abbrev pub range_of : Option Version → Option Version → Option ReleaseRange
range_of none last = none
range_of (some first) none = none
range_of (some first) (some last) = some (record { first = first; last = last })

abbrev pub single_of : Option Version → Option ReleaseRange
single_of none = none
single_of (some version) = some (single version)

abbrev pub range_parts : Text → Option (Text × Text) → Option ReleaseRange
range_parts value none = single_of (from_str (trim value))
range_parts value (some (first, last)) = range_of (from_str (trim first)) (from_str (trim last))

-- `if range.first > range.last`
abbrev pub nonempty : Option ReleaseRange → Option ReleaseRange
nonempty none = none
nonempty (some range) = if version_le range.first range.last then some range else none

-- `ReleaseRange::from_str`; `none` is its error.
unfoldable pub range_from_str : Text → Option ReleaseRange
range_from_str value = nonempty (range_parts value (split_once (codes "..=") value))

abbrev pub IsVersion : Version → Type 0
IsVersion version = (version.major < 2 ^ 16) × (version.minor < 2 ^ 16) × (version.patch < 2 ^ 16)
