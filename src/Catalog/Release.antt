-- ===== src/Catalog/Release.antt =====
-- crates/stm32wb-catalog/src/release.rs: versions in their derived order, and ranges of releases.
pub mod Overlaps
pub mod Texts
mod Examples
use stm32wb_hci.Prelude.{ℕ, Bool, true, false, ◌&&◌, ◌||◌, ltb, leb, ◌==◌}

pub record Version : Type 0 where
  pub major : ℕ
  pub minor : ℕ
  pub patch : ℕ

-- The derived `<=`: by the fields, in order.
unfoldable pub version_le : Version → Version → Bool
version_le a b =
    ltb a.major b.major
    || (a.major == b.major && (ltb a.minor b.minor || (a.minor == b.minor && leb a.patch b.patch)))

pub record ReleaseRange : Type 0 where
  pub first : Version
  pub last : Version

unfoldable pub single : Version → ReleaseRange
single version = record { first = version; last = version }

unfoldable pub contains : ReleaseRange → Version → Bool
contains self version = version_le self.first version && version_le version self.last

unfoldable pub overlaps : ReleaseRange → ReleaseRange → Bool
overlaps self other = version_le self.first other.last && version_le other.first self.last
