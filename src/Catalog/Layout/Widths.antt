-- ===== src/Catalog/Layout/Widths.antt =====
-- The recursion of `struct_width` in crates/stm32wb-catalog/src/layout.rs ends where structures refer to
-- structures of a lower rank.
use stm32wb_hci.Prelude.{
  ℕ, zero, suc, ◌+◌, ◌*◌, ◌^◌, ◌<◌, ◌≡◌, ◌≢◌, ◌⊎◌, inl, inr, refl, Bool-cases, false, Option, none,
  some, List, [], ◌∷◌, arith, ltb, ◌==◌,
}
use stm32wb_hci.Prelude.Bytes.{All}
use stm32wb_hci.Catalog.Layout.{
  scalar_element, struct_element, FieldType, scalar, struct, array, counted, union, optional, Field,
  Structs, find, Outcome, ok, err, unfinished, ◌>>=◌, checked, field_width, sum_fields,
  width_of_fields, struct_width, width,
}

-- The structures that a field's width needs have a lower rank.
abbrev pub RefersBelow : (ℕ → ℕ) → ℕ → FieldType → Type 0
RefersBelow rank name (scalar s) = Unit
RefersBelow rank name (struct inner) = (inner ≡ name) ⊎ (rank inner < rank name)
RefersBelow rank name (array (scalar_element s) len) = Unit
RefersBelow rank name (array (struct_element inner) len) = rank inner < rank name
RefersBelow rank name (counted element count capacity) = Unit
RefersBelow rank name (union selector variants) = Unit
RefersBelow rank name (optional s) = Unit

abbrev pub Ranked : Structs → (ℕ → ℕ) → Type 0
Ranked structs rank =
    (name : ℕ) (fields : List Field)
    → find name structs ≡ some fields
    → All (λ f. RefersBelow rank name f.ty) fields

bind_finishes :
    {A B : Type 0} (first : Outcome A) (others : A → Outcome B)
    → first ≢ unfinished
    → ((a : A) → others a ≢ unfinished)
    → (first >>= others) ≢ unfinished
bind_finishes (ok a) others h k = k a
bind_finishes (err e) others h k = λ bad. cc
bind_finishes unfinished others h k = absurd (h refl)

checked-finishes : (n : ℕ) → checked n ≢ unfinished
checked-finishes n = elim (Bool-cases (ltb n (2 ^ 16))) [
  | inl small ↦ rw small (λ bad. cc)
  | inr big ↦ rw big (λ bad. cc)
]

module _ (rank : ℕ → ℕ) (width_below : ℕ → Outcome ℕ) (name : ℕ)
    (finishes : (inner : ℕ) → rank inner < rank name → width_below inner ≢ unfinished) where
  field_width-finishes :
      (ty : FieldType) → RefersBelow rank name ty → field_width width_below name ty ≢ unfinished
  field_width-finishes (scalar s) h = λ bad. cc
  field_width-finishes (struct inner) h = elim (Bool-cases (inner == name)) [
    | inl same ↦ rw same (λ bad. cc)
    | inr other ↦ rw other (finishes inner (below inner other h))
  ]
    where
      below :
          (inner : ℕ)
          → (inner == name) ≡ false
          → (inner ≡ name) ⊎ (rank inner < rank name)
          → rank inner < rank name
      below inner other (inl same) = absurd (ground (arith, other, same))
      below inner other (inr lower) = lower
  field_width-finishes (array (scalar_element s) len) h = checked-finishes (width s * len)
  field_width-finishes (array (struct_element inner) len) h =
      bind_finishes (width_below inner) (λ element. checked (element * len)) (finishes inner h)
        (λ element. checked-finishes (element * len))
  field_width-finishes (counted element count capacity) h = λ bad. cc
  field_width-finishes (union selector variants) h = λ bad. cc
  field_width-finishes (optional s) h = λ bad. cc

  sum_fields-finishes :
      (fields : List Field) (total : ℕ)
      → All (λ f. RefersBelow rank name f.ty) fields
      → sum_fields width_below name fields total ≢ unfinished
  unfolding sum_fields
  sum_fields-finishes [] total h = λ bad. cc
  sum_fields-finishes (field ∷ fields) total h =
      bind_finishes (field_width width_below name field.ty)
        (λ added. checked (total + added) >>= λ next. sum_fields width_below name fields next)
        (field_width-finishes field.ty h.0)
        (λ added.
          bind_finishes (checked (total + added)) (λ next. sum_fields width_below name fields next)
            (checked-finishes (total + added)) (λ next. sum_fields-finishes fields next h.1))

-- Where every structure refers only to structures of a lower rank, `struct_width` gives a width or an
-- error: the depth of its recursion is at most the rank.
pub struct_width-finishes :
    (structs : Structs) (rank : ℕ → ℕ) (fuel name : ℕ)
    → Ranked structs rank
    → rank name < fuel
    → struct_width structs fuel name ≢ unfinished
unfolding struct_width
struct_width-finishes structs rank zero name ranked enough = absurd (omega (arith, enough))
struct_width-finishes structs rank (suc fuel) name ranked enough =
    of_fields (find name structs) (λ fields e. ranked name fields e)
      (λ inner lower.
        struct_width-finishes structs rank fuel inner ranked (omega (arith, lower, enough)))
  where
    of_fields :
        (found : Option (List Field))
        → ((fields : List Field)
            → found ≡ some fields
            → All (λ f. RefersBelow rank name f.ty) fields)
        → ((inner : ℕ) → rank inner < rank name → struct_width structs fuel inner ≢ unfinished)
        → width_of_fields (struct_width structs fuel) name found ≢ unfinished
    of_fields none below finishes = λ bad. cc
    of_fields (some fields) below finishes =
        sum_fields-finishes rank (struct_width structs fuel) name finishes fields 0
          (below fields refl)
