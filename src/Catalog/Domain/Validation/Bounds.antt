-- ===== src/Catalog/Domain/Validation/Bounds.antt =====
-- The values that documents may list for a member of a layout, as a table, and the flags that are single bits.
use stm32wb_hci.Prelude.{
  ℕ, zero, suc, ◌<◌, ◌≡◌, refl, ap, ◌∙◌, Bool, true, false, ◌&&◌, Option, none, some, arith, leb,
  ◌==◌, if◌then◌else◌,
}
use mathlib.Core.Path.{subst}
use stm32wb_hci.Prelude.Int.{ℤ, pos, negsuc, pos_part, neg_part, leb_ℤ}
use stm32wb_hci.Catalog.Layout.{
  Scalar, u8, u16, u32, u64, i8, i16, i32, i64, width, is_signed, scalar_element, struct_element,
  FieldType, scalar, struct, array, counted, union, optional,
}
use stm32wb_hci.Catalog.Domain.Validation.{scalar_range, array_range, member_range, signed_reading}

-- An unsigned integer may be documented with its two's-complement reading, but for one of 64 bits, whose
-- documented values are those of an i64 that are not negative.
abbrev pub scalar_bounds : Scalar → ℤ × ℤ
scalar_bounds u8 = (negsuc 0x7f, pos 0xff)
scalar_bounds u16 = (negsuc 0x7fff, pos 0xffff)
scalar_bounds u32 = (negsuc 0x7fffffff, pos 0xffffffff)
scalar_bounds u64 = (pos 0, pos 0x7fffffffffffffff)
scalar_bounds i8 = (negsuc 0x7f, pos 0x7f)
scalar_bounds i16 = (negsuc 0x7fff, pos 0x7fff)
scalar_bounds i32 = (negsuc 0x7fffffff, pos 0x7fffffff)
scalar_bounds i64 = (negsuc 0x7fffffffffffffff, pos 0x7fffffffffffffff)

-- An array of two to eight bytes is an integer, and any other is documented by its bytes.
abbrev pub bytes_bounds : ℕ → ℤ × ℤ
bytes_bounds len =
    if len == 2
    then scalar_bounds u16
    else if len == 3
    then (negsuc 0x7fffff, pos 0xffffff)
    else if len == 4
    then scalar_bounds u32
    else if leb 5 len && leb len 8
    then scalar_bounds u64
    else scalar_bounds u8

-- `none` is a member that is not an integer.
abbrev pub member_bounds : FieldType → Option (ℤ × ℤ)
member_bounds (scalar s) = some (scalar_bounds s)
member_bounds (optional s) = some (scalar_bounds s)
member_bounds (array (scalar_element u8) len) = some (bytes_bounds len)
member_bounds (array (scalar_element s) len) = some (scalar_bounds s)
member_bounds (counted (scalar_element s) count capacity) = some (scalar_bounds s)
member_bounds (struct name) = none
member_bounds (array (struct_element name) len) = none
member_bounds (counted (struct_element name) count capacity) = none
member_bounds (union selector variants) = none

abbrev pub reading : ℤ × ℤ → ℤ × ℤ
reading (min, max) = (signed_reading min max, max)

abbrev pub reading_of : Option (ℤ × ℤ) → Option (ℤ × ℤ)
reading_of none = none
reading_of (some range) = some (reading range)

scalar_range-bounds : (s : Scalar) → reading (scalar_range s) ≡ scalar_bounds s
unfolding scalar_range width is_signed
scalar_range-bounds u8 = refl
scalar_range-bounds u16 = refl
scalar_range-bounds u32 = refl
scalar_range-bounds u64 = refl
scalar_range-bounds i8 = refl
scalar_range-bounds i16 = refl
scalar_range-bounds i32 = refl
scalar_range-bounds i64 = refl

of_bytes :
    (len : ℕ)
    → reading (if leb 1 len && leb len 8 then array_range len else scalar_range u8)
      ≡ bytes_bounds len
unfolding array_range scalar_range width is_signed
of_bytes zero = refl
of_bytes (suc zero) = refl
of_bytes (suc (suc zero)) = refl
of_bytes (suc (suc (suc zero))) = refl
of_bytes (suc (suc (suc (suc zero)))) = refl
of_bytes (suc (suc (suc (suc (suc zero))))) = refl
of_bytes (suc (suc (suc (suc (suc (suc zero)))))) = refl
of_bytes (suc (suc (suc (suc (suc (suc (suc zero))))))) = refl
of_bytes (suc (suc (suc (suc (suc (suc (suc (suc zero)))))))) = refl
of_bytes (suc (suc (suc (suc (suc (suc (suc (suc (suc n))))))))) =
    longer (suc (suc (suc (suc (suc (suc (suc (suc (suc n))))))))) (omega arith)
  where
    longer :
        (len : ℕ)
        → 8 < len
        → reading (if leb 1 len && leb len 8 then array_range len else scalar_range u8)
          ≡ bytes_bounds len
    longer len h =
        let two : (len == 2) ≡ false = ground (arith, h) in
        let three : (len == 3) ≡ false = ground (arith, h) in
        let four : (len == 4) ≡ false = ground (arith, h) in
        let past : leb len 8 ≡ false = ground (arith, h) in
        let least : leb 1 len ≡ true = ground (arith, h) in
        let five : leb 5 len ≡ true = ground (arith, h) in
        rw (two, three, four, past, least, five) refl

-- The range that a member's items are compared with is that of the table.
pub member_range-bounds : (ty : FieldType) → reading_of (member_range ty) ≡ member_bounds ty
unfolding member_range
member_range-bounds (scalar s) = ap some (scalar_range-bounds s)
member_range-bounds (optional s) = ap some (scalar_range-bounds s)
member_range-bounds (struct name) = refl
member_range-bounds (array (struct_element name) len) = refl
member_range-bounds (counted (struct_element name) count capacity) = refl
member_range-bounds (union selector variants) = refl
member_range-bounds (counted (scalar_element s) count capacity) = ap some (scalar_range-bounds s)
member_range-bounds (array (scalar_element u8) len) =
    of_choice (leb 1 len && leb len 8) ∙ ap some (of_bytes len)
  where
    of_choice :
        (b : Bool)
        → reading_of (if b then some (array_range len) else some (scalar_range u8))
          ≡ some (reading (if b then array_range len else scalar_range u8))
    of_choice true = refl
    of_choice false = refl
member_range-bounds (array (scalar_element u16) len) = ap some (scalar_range-bounds u16)
member_range-bounds (array (scalar_element u32) len) = ap some (scalar_range-bounds u32)
member_range-bounds (array (scalar_element u64) len) = ap some (scalar_range-bounds u64)
member_range-bounds (array (scalar_element i8) len) = ap some (scalar_range-bounds i8)
member_range-bounds (array (scalar_element i16) len) = ap some (scalar_range-bounds i16)
member_range-bounds (array (scalar_element i32) len) = ap some (scalar_range-bounds i32)
member_range-bounds (array (scalar_element i64) len) = ap some (scalar_range-bounds i64)

-- No bound is below an i64.
abbrev pub IsAbove : ℤ × ℤ → Type 0
IsAbove range = leb_ℤ (negsuc 0x7fffffffffffffff) range.0 ≡ true

scalar_bounds-IsAbove : (s : Scalar) → IsAbove (scalar_bounds s)
unfolding pos_part neg_part
scalar_bounds-IsAbove u8 = refl
scalar_bounds-IsAbove u16 = refl
scalar_bounds-IsAbove u32 = refl
scalar_bounds-IsAbove u64 = refl
scalar_bounds-IsAbove i8 = refl
scalar_bounds-IsAbove i16 = refl
scalar_bounds-IsAbove i32 = refl
scalar_bounds-IsAbove i64 = refl

IsAbove-choice :
    (b : Bool) (range other : ℤ × ℤ)
    → IsAbove range
    → IsAbove other
    → IsAbove (if b then range else other)
IsAbove-choice true range other h k = h
IsAbove-choice false range other h k = k

bytes_bounds-IsAbove : (len : ℕ) → IsAbove (bytes_bounds len)
unfolding pos_part neg_part
bytes_bounds-IsAbove len = IsAbove-choice (len == 2) _ _ (scalar_bounds-IsAbove u16) (
    IsAbove-choice (len == 3) _ _ refl (
      IsAbove-choice (len == 4) _ _ (scalar_bounds-IsAbove u32) (
        IsAbove-choice (leb 5 len && leb len 8) _ _ (scalar_bounds-IsAbove u64)
          (scalar_bounds-IsAbove u8))))

abbrev AllAbove : Option (ℤ × ℤ) → Type 0
AllAbove none = Unit
AllAbove (some range) = IsAbove range

member_bounds-AllAbove : (ty : FieldType) → AllAbove (member_bounds ty)
member_bounds-AllAbove (scalar s) = scalar_bounds-IsAbove s
member_bounds-AllAbove (optional s) = scalar_bounds-IsAbove s
member_bounds-AllAbove (struct name) = tt
member_bounds-AllAbove (array (struct_element name) len) = tt
member_bounds-AllAbove (counted (struct_element name) count capacity) = tt
member_bounds-AllAbove (union selector variants) = tt
member_bounds-AllAbove (counted (scalar_element s) count capacity) = scalar_bounds-IsAbove s
member_bounds-AllAbove (array (scalar_element u8) len) = bytes_bounds-IsAbove len
member_bounds-AllAbove (array (scalar_element u16) len) = scalar_bounds-IsAbove u16
member_bounds-AllAbove (array (scalar_element u32) len) = scalar_bounds-IsAbove u32
member_bounds-AllAbove (array (scalar_element u64) len) = scalar_bounds-IsAbove u64
member_bounds-AllAbove (array (scalar_element i8) len) = scalar_bounds-IsAbove i8
member_bounds-AllAbove (array (scalar_element i16) len) = scalar_bounds-IsAbove i16
member_bounds-AllAbove (array (scalar_element i32) len) = scalar_bounds-IsAbove i32
member_bounds-AllAbove (array (scalar_element i64) len) = scalar_bounds-IsAbove i64

pub member_bounds-IsAbove :
    (ty : FieldType) (range : ℤ × ℤ) → member_bounds ty ≡ some range → IsAbove range
member_bounds-IsAbove ty range h = subst AllAbove h (member_bounds-AllAbove ty)
