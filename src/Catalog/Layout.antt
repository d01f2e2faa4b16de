-- ===== src/Catalog/Layout.antt =====
-- crates/stm32wb-catalog/src/layout.rs: fields of packed layouts, their widths, and the size envelope of a
-- layout. A name is a number: the code only compares names.
pub mod Widths
pub mod Variants
pub mod Bounds
mod Examples
use stm32wb_hci.Prelude.{
  ℕ, zero, suc, ◌+◌, ◌*◌, ◌^◌, Bool, true, false, not, ◌||◌, Option, none, some, List, [], ◌∷◌,
  ◌++◌, leb, ltb, ◌==◌, if◌then◌else◌,
}

pub data Scalar : Type 0 where
  u8 u16 u32 u64 i8 i16 i32 i64 : Scalar

unfoldable pub width : Scalar → ℕ
width u8 = 1
width i8 = 1
width u16 = 2
width i16 = 2
width u32 = 4
width i32 = 4
width u64 = 8
width i64 = 8

unfoldable pub is_signed : Scalar → Bool
is_signed u8 = false
is_signed u16 = false
is_signed u32 = false
is_signed u64 = false
is_signed i8 = true
is_signed i16 = true
is_signed i32 = true
is_signed i64 = true

pub data Element : Type 0 where
  scalar_element : Scalar → Element
  struct_element : ℕ → Element

pub record UnionVariant : Type 0 where
  pub tag : Option ℕ
  pub width : ℕ

pub data FieldType : Type 0 where
  scalar : Scalar → FieldType
  struct : ℕ → FieldType
  array : Element → ℕ → FieldType
  -- The element, the field that counts, and the capacity.
  counted : Element → ℕ → ℕ → FieldType
  union : ℕ → List UnionVariant → FieldType
  optional : Scalar → FieldType

pub record Field : Type 0 where
  pub name : ℕ
  pub ty : FieldType

-- A map from names, looked up by the first entry of a name.
abbrev pub Structs : Type 0
Structs = List (ℕ × List Field)

unfoldable pub find {ℓ} : {A : Type ℓ} → ℕ → List (ℕ × A) → Option A
find name [] = none
find name ((key, value) ∷ entries) =
    let others = find name entries in if key == name then some value else others

pub data LayoutError : Type 0 where
  not_defined overflows not_fixed_width not_optional not_unsigned not_earlier empty_union
        listed_twice duplicate_field :
      LayoutError

-- A result; `unfinished` is fuel that ran out, where the recursion of the code goes on.
pub data Outcome {ℓ} (A : Type ℓ) : Type ℓ where
  ok : A → Outcome A
  err : LayoutError → Outcome A
  unfinished : Outcome A

infixl 5 ◌>>=◌
abbrev pub ◌>>=◌ {ℓ κ} : {A : Type ℓ} {B : Type κ} → Outcome A → (A → Outcome B) → Outcome B
ok a >>= f = f a
err e >>= f = err e
unfinished >>= f = unfinished

-- `checked_mul` and `checked_add` of u16.
abbrev pub checked : ℕ → Outcome ℕ
checked n = if ltb n (2 ^ 16) then ok n else err overflows

-- A field of the structure `name`, given the widths of the structures that it names.
abbrev pub field_width : (ℕ → Outcome ℕ) → ℕ → FieldType → Outcome ℕ
field_width struct_width name (scalar s) = ok (width s)
field_width struct_width name (struct inner) =
    let inner_width = struct_width inner in
    if inner == name then err not_fixed_width else inner_width
field_width struct_width name (array (scalar_element s) len) = checked (width s * len)
field_width struct_width name (array (struct_element inner) len) = do
  element ← struct_width inner
  checked (element * len)
field_width struct_width name (counted element count capacity) = err not_fixed_width
field_width struct_width name (union selector variants) = err not_fixed_width
field_width struct_width name (optional s) = err not_fixed_width

-- The loop over the fields, from the width so far.
unfoldable pub sum_fields : (ℕ → Outcome ℕ) → ℕ → List Field → ℕ → Outcome ℕ
sum_fields struct_width name [] total = ok total
sum_fields struct_width name (field ∷ fields) total = do
  added ← field_width struct_width name field.ty
  total ← checked (total + added)
  sum_fields struct_width name fields total

abbrev pub width_of_fields : (ℕ → Outcome ℕ) → ℕ → Option (List Field) → Outcome ℕ
width_of_fields struct_width name none = err not_defined
width_of_fields struct_width name (some fields) = sum_fields struct_width name fields 0

module _ (structs : Structs) where
  unfoldable pub struct_width : ℕ → ℕ → Outcome ℕ
  struct_width zero name = unfinished
  struct_width (suc fuel) name = width_of_fields (struct_width fuel) name (find name structs)

  module _ (fuel : ℕ) where
    unfoldable pub element_width : Element → Outcome ℕ
    element_width (scalar_element s) = ok (width s)
    element_width (struct_element name) = struct_width fuel name

    abbrev pub is_unsigned : Option FieldType → Outcome (Unit {0})
    is_unsigned none = err not_earlier
    is_unsigned (some (scalar s)) = if is_signed s then err not_unsigned else ok tt
    is_unsigned (some (struct name)) = err not_unsigned
    is_unsigned (some (array element len)) = err not_unsigned
    is_unsigned (some (counted element count capacity)) = err not_unsigned
    is_unsigned (some (union selector variants)) = err not_unsigned
    is_unsigned (some (optional s)) = err not_unsigned

    -- The fields before, the last one first; a name is there once.
    unfoldable pub require_scalar_reference : List (ℕ × FieldType) → ℕ → Outcome (Unit {0})
    require_scalar_reference earlier reference = is_unsigned (find reference earlier)

    abbrev pub same_tag : Option ℕ → Option ℕ → Bool
    same_tag none none = true
    same_tag none (some b) = false
    same_tag (some a) none = false
    same_tag (some a) (some b) = a == b

    unfoldable pub lists_tag : Option ℕ → List UnionVariant → Bool
    lists_tag tag [] = false
    lists_tag tag (variant ∷ variants) = same_tag variant.tag tag || lists_tag tag variants

    -- The loop over the variants: each one against those before it.
    unfoldable pub distinct_variants : List UnionVariant → List UnionVariant → Outcome (Unit {0})
    distinct_variants before [] = ok tt
    distinct_variants before (variant ∷ variants) =
        let others = distinct_variants (before ++ (variant ∷ [])) variants in
        if lists_tag variant.tag before then err listed_twice else others

    unfoldable pub min_width : ℕ → List UnionVariant → ℕ
    min_width least [] = least
    min_width least (variant ∷ variants) =
        min_width (if leb least variant.width then least else variant.width) variants

    unfoldable pub max_width : ℕ → List UnionVariant → ℕ
    max_width most [] = most
    max_width most (variant ∷ variants) =
        max_width (if leb variant.width most then most else variant.width) variants

    abbrev pub union_bounds : List UnionVariant → Outcome (ℕ × ℕ)
    union_bounds [] = err empty_union
    union_bounds (variant ∷ variants) = do
      _ ← distinct_variants [] (variant ∷ variants)
      ok (min_width variant.width variants, max_width variant.width variants)

    -- The least and the largest size of a field.
    unfoldable pub field_bounds : List (ℕ × FieldType) → FieldType → Outcome (ℕ × ℕ)
    field_bounds earlier (scalar s) = ok (width s, width s)
    field_bounds earlier (struct name) = do size ← struct_width fuel name; ok (size, size)
    field_bounds earlier (array element len) = do
      size ← element_width element
      ok (size * len, size * len)
    field_bounds earlier (counted element count capacity) = do
      _ ← require_scalar_reference earlier count
      size ← element_width element
      ok (0, size * capacity)
    field_bounds earlier (union selector variants) = do
      _ ← require_scalar_reference earlier selector
      union_bounds variants
    field_bounds earlier (optional s) = ok (0, width s)

    abbrev pub is_optional : FieldType → Bool
    is_optional (scalar s) = false
    is_optional (struct name) = false
    is_optional (array element len) = false
    is_optional (counted element count capacity) = false
    is_optional (union selector variants) = false
    is_optional (optional s) = true

    -- `earlier.insert`, which tells whether the name was there.
    abbrev pub insert :
        List (ℕ × FieldType) → Field → Option FieldType → Outcome (List (ℕ × FieldType))
    insert earlier field (some ty) = err duplicate_field
    insert earlier field none = ok ((field.name, field.ty) ∷ earlier)

    -- The loop of `envelope`; `seen` tells whether an optional field was there.
    unfoldable pub envelope_loop :
        List Field → ℕ → ℕ → List (ℕ × FieldType) → Bool → Outcome (ℕ × ℕ)
    envelope_loop [] min max earlier seen = ok (min, max)
    envelope_loop (field ∷ fields) min max earlier seen = do
      _ ← if seen then (if is_optional field.ty then ok tt else err not_optional) else ok (tt {0})
      (field_min, field_max) ← field_bounds earlier field.ty
      earlier ← insert earlier field (find field.name earlier)
      envelope_loop fields (min + field_min) (max + field_max) earlier
          (seen || is_optional field.ty)

    unfoldable pub envelope : List Field → Outcome (ℕ × ℕ)
    envelope fields = envelope_loop fields 0 0 [] false
