-- ===== src/Catalog/Release/Texts/Ranges.antt =====
-- A range of releases is read back from its text in crates/stm32wb-catalog/src/release.rs.
use mathlib.Core.List.{append_assoc, append-nil}
use stm32wb_hci.Prelude.{
  ℕ, ◌≡◌, ◌≢◌, inl, inr, refl, ap, ◌∙◌, true, false, Bool-cases, Option, none, some, [], ◌∷◌, ◌++◌,
  arith,
}
use stm32wb_hci.Prelude.Bytes.{All}
use stm32wb_hci.Prelude.Text.{
  Text, codes, split_once, split_once-append, split_once-pass, split_once-half, prepend, All-append,
  All-weaken,
}
use stm32wb_hci.Prelude.Digits.{decimal}
use stm32wb_hci.Prelude.Digits.Lengths.{decimal-nonempty}
use stm32wb_hci.Prelude.Digits.Reading.{IsDigit, All-decimal}
use stm32wb_hci.Catalog.Release.{Version, version_le, ReleaseRange, single}
use stm32wb_hci.Catalog.Release.Texts.{
  display, from_str, same_version, display_range, is_whitespace, trim_start, keep, trim_end, trim,
  range_from_str, IsVersion,
}
use stm32wb_hci.Catalog.Release.Texts.Roundtrips.{from_str-display}

abbrev separator : Text
separator = codes "..="

-- The search for the separator passes a text whatever stands behind it.
abbrev Passes : Text → Type 0
Passes xs =
    (rest : Text) → split_once separator (xs ++ rest) ≡ prepend xs (split_once separator rest)

prepend-prepend :
    (xs ys : Text) (o : Option (Text × Text)) → prepend xs (prepend ys o) ≡ prepend (xs ++ ys) o
prepend-prepend xs ys none = refl
prepend-prepend xs ys (some (before, rest)) =
    ap (λ t. some (t, rest)) (rw (append_assoc xs ys before) refl)

append-Passes : (xs ys : Text) → Passes xs → Passes ys → Passes (xs ++ ys)
append-Passes xs ys h k rest =
    rw (append_assoc xs ys rest, h (ys ++ rest), k rest)
      (prepend-prepend xs ys (split_once separator rest))

no_dot : (n : ℕ) → All (λ c. c ≢ 46) (decimal n)
no_dot n = All-weaken IsDigit (λ c. c ≢ 46) (decimal n) (λ c h. omega (arith, h.0)) (All-decimal n)

dotted-Passes : (n : ℕ) → Passes (46 ∷ decimal n)
dotted-Passes n rest = split_once-half 46 (61 ∷ []) (decimal n) rest (no_dot n) (decimal-nonempty n)

display-Passes : (version : Version) → Passes (display version)
unfolding display
display-Passes version =
    append-Passes (decimal version.major)
      (46 ∷ (decimal version.minor ++ (46 ∷ decimal version.patch)))
      (λ rest.
        split_once-pass 46 (46 ∷ 61 ∷ []) (decimal version.major) rest (no_dot version.major))
      (append-Passes (46 ∷ decimal version.minor) (46 ∷ decimal version.patch)
        (dotted-Passes version.minor) (dotted-Passes version.patch))

-- A character that no text of a version lacks of white space.
abbrev NotSpace : ℕ → Type 0
NotSpace c = is_whitespace c ≡ false

digit-NotSpace : (c : ℕ) → IsDigit c → NotSpace c
unfolding is_whitespace
digit-NotSpace c h = ground (arith, h.0, h.1)

decimal-NotSpace : (n : ℕ) → All NotSpace (decimal n)
decimal-NotSpace n = All-weaken IsDigit NotSpace (decimal n) digit-NotSpace (All-decimal n)

display-NotSpace : (version : Version) → All NotSpace (display version)
unfolding display is_whitespace
display-NotSpace version =
    All-append NotSpace (decimal version.major)
      (46 ∷ (decimal version.minor ++ (46 ∷ decimal version.patch)))
      (decimal-NotSpace version.major)
      (
        refl,
        All-append NotSpace (decimal version.minor) (46 ∷ decimal version.patch)
            (decimal-NotSpace version.minor) (refl, decimal-NotSpace version.patch),
      )

trim_start-NotSpace : (text : Text) → All NotSpace text → trim_start text ≡ text
unfolding trim_start
trim_start-NotSpace [] h = refl
trim_start-NotSpace (c ∷ text) h = rw h.0 refl

keep-NotSpace : (c : ℕ) (text : Text) → NotSpace c → keep c text ≡ c ∷ text
keep-NotSpace c [] h = rw h refl
keep-NotSpace c (d ∷ text) h = refl

trim_end-NotSpace : (text : Text) → All NotSpace text → trim_end text ≡ text
unfolding trim_end
trim_end-NotSpace [] h = refl
trim_end-NotSpace (c ∷ text) h = rw (trim_end-NotSpace text h.1) (keep-NotSpace c text h.0)

from_str-trim :
    (version : Version) → IsVersion version → from_str (trim (display version)) ≡ some version
from_str-trim version h =
    rw
      (
        trim_start-NotSpace (display version) (display-NotSpace version),
        trim_end-NotSpace (display version) (display-NotSpace version),
      )
      (from_str-display version h).0

pub same_version-eq : (a b : Version) → same_version a b ≡ true → a ≡ b
same_version-eq a b h = ground (arith, h)

split_once-single : (version : Version) → split_once separator (display version) ≡ none
unfolding split_once
split_once-single version =
    ap (split_once separator) (rw (append-nil (display version)) refl) ∙ display-Passes version []

split_once-two :
    (first last : Version)
    → split_once separator (display first ++ (separator ++ display last))
      ≡ some (display first, display last)
split_once-two first last =
    rw
      (
        display-Passes first (separator ++ display last),
        split_once-append 46 (46 ∷ 61 ∷ []) [] (display last) tt,
        append-nil (display first),
      )
      refl

-- A range of releases that is not empty is read back from its text, be it one release or several.
pub range_from_str-display_range :
    (range : ReleaseRange)
    → IsVersion range.first
    → IsVersion range.last
    → version_le range.first range.last ≡ true
    → range_from_str (display_range range) ≡ some range
unfolding range_from_str display_range single
range_from_str-display_range range hf hl le =
    elim (Bool-cases (same_version range.first range.last)) [
      | inr two ↦
          rw
            (
              two,
              split_once-two range.first range.last,
              from_str-trim range.first hf,
              from_str-trim range.last hl,
              le,
            )
            refl
      | inl one ↦
          let same : range.first ≡ range.last = same_version-eq range.first range.last one in
          let le_self : version_le range.first range.first ≡ true = rw (← same) at le in
          rw (one, split_once-single range.first, from_str-trim range.first hf, le_self)
            (ap (λ v. some (record { first = range.first; last = v })) same)
    ]
