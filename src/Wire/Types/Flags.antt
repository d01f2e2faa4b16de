-- ===== src/Wire/Types/Flags.antt =====
-- The flag types that `wire_flags!` declares, as sets of bits.
use Prim.Native.Nat.{bit_and, bit_or}
use stm32wb_hci.Prelude.{
  ℕ, ◌-◌, ◌^◌, ◌<◌, ◌≡◌, ◌↔◌, ap, true, some, arith, Bool-cases, inl, inr, ==_iff, ◌==◌,
}
use stm32wb_hci.Prelude.Bits.{bit, ◌⊑◌, and_not_iff, bit-bit_and, bit-bit_or, bit_and-⊑_comm}
use stm32wb_hci.Wire.Types.{from_bits, contains, union, intersection}

module _ (bits all : ℕ) (fits : all < 2 ^ bits) where
  -- `from_bits` accepts an integer exactly if it sets no other bit than those of the flags, and keeps it.
  pub from_bits_iff :
      (value flags : ℕ)
      → value < 2 ^ bits
      → (from_bits bits all value ≡ some flags) ↔ ((value ≡ flags) × (value ⊑ all))
  unfolding from_bits
  from_bits_iff value flags h =
      let (to, from) = and_not_iff bits value all h fits in
      elim (Bool-cases (bit_and value (2 ^ bits - 1 - all) == 0)) [
        | inl clear ↦ rw clear (λ e. (cc, to ((==_iff _ 0).0 clear)), λ (e, _). ground (arith, e))
        | inr set ↦ rw set (λ e. cc, λ (e, s). absurd (ground (arith, set, from s)))
      ]

-- `contains` is inclusion of the bits.
pub contains_iff : (self other : ℕ) → (contains self other ≡ true) ↔ (other ⊑ self)
unfolding contains
contains_iff self other = (
  λ h i. omega (arith, bit-bit_and i self other, ap (bit i) ((==_iff _ other).0 h)),
  λ s. (==_iff _ other).1 (bit_and-⊑_comm other self s),
)

-- A set of flags contains the union of two exactly if it contains both.
pub union_least :
    (self other bound : ℕ)
    → (contains bound (union self other) ≡ true)
      ↔ ((contains bound self ≡ true) × (contains bound other ≡ true))
unfolding union
union_least self other bound = (
  λ h.
      let within = (contains_iff bound (bit_or self other)).0 h in
      (
        (contains_iff bound self).1 (λ i. omega (arith, within i, bit-bit_or i self other)),
        (contains_iff bound other).1 (λ i. omega (arith, within i, bit-bit_or i self other)),
      ),
  λ (h, k). (contains_iff bound (bit_or self other)).1 (λ i. omega (
    arith,
    bit-bit_or i self other,
    (contains_iff bound self).0 h i,
    (contains_iff bound other).0 k i,
  )),
)

-- The intersection of two contains a set of flags exactly if both do.
pub intersection_greatest :
    (self other part : ℕ)
    → (contains (intersection self other) part ≡ true)
      ↔ ((contains self part ≡ true) × (contains other part ≡ true))
unfolding intersection
intersection_greatest self other part = (
  λ h.
      let within = (contains_iff (bit_and self other) part).0 h in
      (
        (contains_iff self part).1 (λ i. omega (arith, within i, bit-bit_and i self other)),
        (contains_iff other part).1 (λ i. omega (arith, within i, bit-bit_and i self other)),
      ),
  λ (h, k). (contains_iff (bit_and self other) part).1 (λ i. omega (
    arith,
    bit-bit_and i self other,
    (contains_iff self part).0 h i,
    (contains_iff other part).0 k i,
  )),
)
