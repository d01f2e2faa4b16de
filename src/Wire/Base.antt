-- ===== src/Wire/Base.antt =====
-- crates/stm32wb-hci/src/wire.rs: a trait with associated constants is a record of those constants.
use stm32wb_hci.Prelude.{ℕ, Bool, false, Option, none, List}
use stm32wb_hci.Prelude.Int.{ℤ}

-- The associated constants of `HciWireType`. An inclusive range is the pair of its ends.
pub record WireType : Type 0 where
  pub width : ℕ
  pub last_enhanced_bearer : ℕ
  pub values : Option (List ℤ)
  pub bits : Option ℕ
  pub ranges : Option (List (ℤ × ℤ))
  pub unit_us : Option ℕ
  pub lengths : Option (List (ℤ × ℕ))
  pub fallback : Bool

-- A type that overrides the width only.
abbrev pub plain : ℕ → WireType
plain width = record {
  width = width;
  last_enhanced_bearer = 0;
  values = none;
  bits = none;
  ranges = none;
  unit_us = none;
  lengths = none;
  fallback = false;
}
