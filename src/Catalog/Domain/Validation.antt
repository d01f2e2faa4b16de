-- ===== src/Catalog/Domain/Validation.antt =====
-- `validate_domain` of crates/stm32wb-catalog/src/domain.rs. A name of a member is a number: the code only
-- compares names. An i64 wraps around, as it does in a release build.
pub mod Bounds
pub mod Flags
pub mod Held
pub mod Checked
use Prim.Native.Nat.{bit_and}
use stm32wb_hci.Prelude.{
  ℕ, zero, suc, ◌+◌, ◌-◌, ◌*◌, ◌/◌, ◌^◌, Bool, true, false, not, ◌&&◌, ◌||◌, Option, none, some,
  List, [], ◌∷◌, ltb, leb, ◌==◌, is_none, if◌then◌else◌,
}
use stm32wb_hci.Prelude.Int.{ℤ, pos, negsuc, leb_ℤ, eqb_ℤ}
use stm32wb_hci.Catalog.Bearers.{Layout, fields, unresolved}
use stm32wb_hci.Catalog.Layout.{
  Scalar, u8, u16, u32, u64, i8, i16, i32, i64, width, is_signed, scalar_element, struct_element,
  FieldType, scalar, struct, array, counted, union, optional, Field,
}
use stm32wb_hci.Catalog.Target.{Profile, all_profiles}
use stm32wb_hci.Catalog.Domain.{DomainItem, DomainKind, values, flags, Domain}
use stm32wb_hci.Catalog.Domain.Items.{ltb_ℤ, item_lt, items_of, as_u64}

-- The least and the greatest value of a signed integer of so many bits. For 64 bits, `-(1 << 63)` and
-- `(1 << 63) - 1` wrap around to the same values.
abbrev pub signed_range : ℕ → ℤ × ℤ
signed_range bits = (negsuc (2 ^ (bits - 1) - 1), pos (2 ^ (bits - 1) - 1))

unfoldable pub scalar_range : Scalar → ℤ × ℤ
unfolding width is_signed
scalar_range s =
    if is_signed s
    then signed_range (8 * width s)
    else if 8 * width s == 64
    then (pos 0, pos (2 ^ 63 - 1))
    else (pos 0, pos (2 ^ (8 * width s) - 1))

-- The scalar that holds a byte array, by the length of the array.
abbrev pub array_scalar : ℕ → Scalar
array_scalar len =
    if len == 1 then u8 else if len == 2 then u16 else if (len == 3) || (len == 4) then u32 else u64

unfoldable pub array_range : ℕ → ℤ × ℤ
unfolding scalar_range
array_range len = if len == 3 then (pos 0, pos (2 ^ 24 - 1)) else scalar_range (array_scalar len)

-- The range of a member's values; `none` is a member that is not an integer.
unfoldable pub member_range : FieldType → Option (ℤ × ℤ)
unfolding scalar_range array_range
member_range (scalar s) = some (scalar_range s)
member_range (optional s) = some (scalar_range s)
member_range (array (scalar_element u8) len) =
    if leb 1 len && leb len 8 then some (array_range len) else some (scalar_range u8)
member_range (array (scalar_element s) len) = some (scalar_range s)
member_range (counted (scalar_element s) count capacity) = some (scalar_range s)
member_range (struct name) = none
member_range (array (struct_element name) len) = none
member_range (counted (struct_element name) count capacity) = none
member_range (union selector variants) = none

pub data DomainError : Type 0 where
  not_integer not_member empty_domain not_held not_single_bit out_of_order zero_unit
        unknown_condition :
      DomainError

-- `fields.iter().find(|field| field.name == *member)`
unfoldable pub find_field : ℕ → List Field → Option Field
find_field member [] = none
find_field member (field ∷ others) =
    let found = find_field member others in if field.name == member then some field else found

-- `-n / 2`
abbrev pub minus_half : ℕ → ℤ
minus_half n = elim (n / 2) [ zero ↦ pos 0 | suc k ↦ negsuc k ]

-- `if min == 0 && max < i64::MAX`
abbrev pub signed_reading : ℤ → ℤ → ℤ
signed_reading (pos zero) (pos max) = if ltb max (2 ^ 63 - 1) then minus_half (max + 1) else pos 0
signed_reading min max = min

-- `item.first != 0 && item.first & (item.first - 1) != 0`, on the bits of an i64.
unfoldable pub several_bits : ℤ → Bool
unfolding as_u64
several_bits first =
    not (eqb_ℤ first (pos 0)) && not (bit_and (as_u64 first) (as_u64 first - 1) == 0)

abbrev pub not_flag : DomainKind → DomainItem → Bool
not_flag values item = false
not_flag flags item = not (eqb_ℤ item.first item.last) || several_bits item.first

-- The loop over the items; `none` is success.
unfoldable pub check_items : ℤ → ℤ → DomainKind → List DomainItem → Option DomainError
check_items min max kind [] = none
check_items min max kind (item ∷ items) =
    let others = check_items min max kind items in
    if ltb_ℤ item.first min || ltb_ℤ max item.last
    then some not_held
    else if not_flag kind item
    then some not_single_bit
    else others

-- `items.windows(2).any(|pair| pair[0] >= pair[1])`
unfoldable pub any_disorder : List DomainItem → Bool
any_disorder [] = false
any_disorder (item ∷ []) = false
any_disorder (item ∷ next ∷ items) = not (item_lt item next) || any_disorder (next ∷ items)

abbrev pub is_zero_unit : Option ℕ → Bool
is_zero_unit none = false
is_zero_unit (some unit) = unit == 0

-- The loop over the profiles: whether some profile's items are an error.
unfoldable pub any_failure : Domain → List Profile → Bool
any_failure domain [] = false
any_failure domain (profile ∷ profiles) =
    is_none (items_of domain profile) || any_failure domain profiles

abbrev pub is_empty : List DomainItem → Bool
is_empty [] = true
is_empty (item ∷ items) = false

abbrev pub check_domain : Domain → Option DomainError → Option DomainError
check_domain domain (some e) = some e
check_domain domain none =
    if any_disorder domain.items
    then some out_of_order
    else if is_zero_unit domain.unit_us
    then some zero_unit
    else if any_failure domain all_profiles
    then some unknown_condition
    else none

abbrev pub check_range : Domain → Option (ℤ × ℤ) → Option DomainError
check_range domain none = some not_integer
check_range domain (some (min, max)) =
    if is_empty domain.items
    then some empty_domain
    else check_domain domain (check_items (signed_reading min max) max domain.kind domain.items)

abbrev pub check_member : Domain → Option Field → Option DomainError
check_member domain none = some not_member
check_member domain (some field) = check_range domain (member_range field.ty)

-- `validate_domain` of a member's domain; `none` is success.
unfoldable pub validate_domain : Layout → ℕ → Domain → Option DomainError
validate_domain unresolved member domain = none
validate_domain (fields list) member domain = check_member domain (find_field member list)
