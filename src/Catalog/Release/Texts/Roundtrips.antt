-- ===== src/Catalog/Release/Texts/Roundtrips.antt =====
-- Versions, Cargo features and ranges of releases are read back from their text.
use stm32wb_hci.Prelude.{
  ℕ, ◌^◌, ◌<◌, ◌≡◌, ◌⊎◌, inl, inr, refl, true, false, none, some, [], ◌∷◌, ◌++◌, arith, ◌==◌,
  length,
}
use stm32wb_hci.Prelude.Bytes.{All}
use stm32wb_hci.Prelude.Text.{
  Text, codes, strip_prefix, strip_prefix-append, split, split-piece, split-append, All-weaken,
}
use stm32wb_hci.Prelude.Digits.{decimal}
use stm32wb_hci.Prelude.Digits.Lengths.{decimal-nonempty}
use stm32wb_hci.Prelude.Digits.Reading.{IsDigit, All-decimal, from_str_radix-decimal}
use stm32wb_hci.Catalog.Release.{Version}
use stm32wb_hci.Catalog.Release.Texts.{
  dot, underscore, joined, display, cube_tag, feature_name, three_parts, from_feature_name,
  from_str, IsVersion,
}

module _ (sep : ℕ) (outside : sep < 48 ⊎ 90 < sep) where
  digit_ne : (c : ℕ) → IsDigit c → (c == sep) ≡ false
  digit_ne c h = elim outside [
    | inl low ↦ ground (arith, h.0, h.1, low)
    | inr high ↦ ground (arith, h.0, h.1, high)
  ]

  no_sep : (n : ℕ) → All (λ c. (c == sep) ≡ false) (decimal n)
  no_sep n = All-weaken IsDigit (λ c. (c == sep) ≡ false) (decimal n) digit_ne (All-decimal n)

  -- The parts of a version between a separator are its numbers.
  split-joined :
      (version : Version)
      → split (λ c. c == sep) (joined (sep ∷ []) version)
        ≡ decimal version.major ∷ decimal version.minor ∷ decimal version.patch ∷ []
  split-joined version =
      let same : (sep == sep) ≡ true = ground arith in
      rw
        (
          split-append (λ c. c == sep) (decimal version.major)
              (decimal version.minor ++ (sep ∷ decimal version.patch)) sep (no_sep version.major)
              same,
          split-append (λ c. c == sep) (decimal version.minor) (decimal version.patch) sep
              (no_sep version.minor) same,
          split-piece (λ c. c == sep) (decimal version.patch) (no_sep version.patch),
        )
        refl

parts_of :
    (version : Version)
    → IsVersion version
    → three_parts (decimal version.major ∷ decimal version.minor ∷ decimal version.patch ∷ [])
      ≡ some version
parts_of version h =
    rw
      (
        from_str_radix-decimal (2 ^ 16) version.major h.0,
        from_str_radix-decimal (2 ^ 16) version.minor h.1,
        from_str_radix-decimal (2 ^ 16) version.patch h.2,
      )
      refl

-- The Cargo feature of a release, behind any prefix, selects that release.
pub from_feature_name-feature_name :
    (prefix : Text) (version : Version)
    → IsVersion version
    → from_feature_name (feature_name version prefix) prefix ≡ some version
unfolding from_feature_name feature_name
from_feature_name-feature_name prefix version h =
    rw
      (
        strip_prefix-append prefix (joined underscore version),
        split-joined 95 (inr (omega arith)) version,
      )
      (parts_of version h)

unmarked :
    (text rest : Text)
    → All IsDigit text
    → 0 < length text
    → strip_prefix (codes "v") (text ++ rest) ≡ none
unfolding strip_prefix
unmarked [] rest h k = absurd (omega (arith, k))
unmarked (c ∷ text) rest h k =
    let other : (118 == c) ≡ false = ground (arith, h.0.0, h.0.1) in rw other refl

-- The text of a version and its Git tag are read back as the version.
pub from_str-display :
    (version : Version)
    → IsVersion version
    → (from_str (display version) ≡ some version) × (from_str (cube_tag version) ≡ some version)
unfolding from_str display cube_tag
from_str-display version h = (
  rw
      (
        unmarked (decimal version.major)
            (dot ++ (decimal version.minor ++ (dot ++ decimal version.patch)))
            (All-decimal version.major) (decimal-nonempty version.major),
        split-joined 46 (inl (omega arith)) version,
      )
      (parts_of version h),
  rw
      (
        strip_prefix-append (codes "v") (joined dot version),
        split-joined 46 (inl (omega arith)) version,
      )
      (parts_of version h),
)
