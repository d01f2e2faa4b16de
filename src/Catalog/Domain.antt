-- ===== src/Catalog/Domain.antt =====
-- crates/stm32wb-catalog/src/domain.rs: the documented values of a member, and those that a stack profile
-- accepts. An integer is an i64.
pub mod Labels
pub mod Items
pub mod Texts
pub mod Validation
mod Examples
use stm32wb_hci.Prelude.{ℕ, Option, none, some, List}
use stm32wb_hci.Prelude.Int.{ℤ}
use stm32wb_hci.Prelude.Text.{Text, codes, strip_suffix, rsplit_once}
use stm32wb_hci.Prelude.Digits.{parse_u16}

pub record DomainItem : Type 0 where
  pub first : ℤ
  pub last : ℤ
  pub hex_digits : Option ℕ
  pub label : Option Text

abbrev pub without_suffix : Text → Option Text
without_suffix text = elim (strip_suffix (codes " bytes") text) [
  | some count ↦ some count
  | none ↦ strip_suffix (codes " byte") text
]

abbrev pub count_of : Option Text → Option ℕ
count_of none = none
count_of (some count) = parse_u16 count

abbrev pub last_part : Option (Text × Text) → Option ℕ
last_part none = none
last_part (some (before, last)) = count_of (without_suffix last)

abbrev pub length_of : Option Text → Option ℕ
length_of none = none
length_of (some label) = last_part (rsplit_once (codes "; ") label)

-- `DomainItem::length`
unfoldable pub item_length : DomainItem → Option ℕ
item_length self = length_of self.label

pub data DomainKind : Type 0 where
  values flags : DomainKind

pub record Domain : Type 0 where
  pub kind : DomainKind
  pub items : List DomainItem
  pub unit_us : Option ℕ
