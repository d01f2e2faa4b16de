-- ===== src/Catalog/Release/Overlaps.antt =====
-- `overlaps` of crates/stm32wb-catalog/src/release.rs, for ranges that are not empty.
use stm32wb_hci.Prelude.{◌≡◌, ◌↔◌, inl, inr, refl, Bool, true, false, ◌&&◌, arith, Bool-cases}
use stm32wb_hci.Catalog.Release.{Version, version_le, ReleaseRange, contains, overlaps}

pub version_le_refl : (a : Version) → version_le a a ≡ true
unfolding version_le
version_le_refl a = ground arith

pub version_le_trans :
    (a b c : Version) → version_le a b ≡ true → version_le b c ≡ true → version_le a c ≡ true
unfolding version_le
version_le_trans a b c h k = ground (arith, h, k)

pub version_le_total : (a b : Version) → version_le a b ≡ false → version_le b a ≡ true
unfolding version_le
version_le_total a b h = ground (arith, h)

pub both-true : (a b : Bool) → (a && b) ≡ true → (a ≡ true) × (b ≡ true)
both-true a b h = ground (arith, h)

pub and-true : {a b : Bool} → a ≡ true → b ≡ true → (a && b) ≡ true
and-true h k = rw (h, k) refl

-- Two ranges overlap exactly when some version is in both.
pub overlaps_iff :
    (self other : ReleaseRange)
    → version_le self.first self.last ≡ true
    → version_le other.first other.last ≡ true
    → (overlaps self other ≡ true)
      ↔ ((version : Version) × (contains self version ≡ true) × (contains other version ≡ true))
unfolding overlaps contains
overlaps_iff self other h k = (
  λ o.
      let (before, behind) = both-true _ _ o in
      elim (Bool-cases (version_le self.first other.first)) [
        | inl le ↦ (other.first, and-true le behind, and-true (version_le_refl other.first) k)
        | inr other_first ↦ (
          self.first,
          and-true (version_le_refl self.first) h,
          and-true (version_le_total self.first other.first other_first) before,
        )
      ],
  λ common.
      let (version, in_self, in_other) = common in
      let (a, b) = both-true _ _ in_self in
      let (c, d) = both-true _ _ in_other in
      and-true (version_le_trans self.first version other.last a d)
        (version_le_trans other.first version self.last c b),
)
