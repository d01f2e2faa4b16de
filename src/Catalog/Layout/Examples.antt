-- ===== src/Catalog/Layout/Examples.antt =====
-- The layouts of the tests of crates/stm32wb-catalog/src/layout.rs, and the theorems there.
use stm32wb_hci.Prelude.{
  ◌+◌, ◌*◌, ◌≤◌, ◌≡◌, ◌≢◌, refl, Bool-cases, inl, inr, none, some, List, [], ◌∷◌, ◌==◌, arith,
}
use stm32wb_hci.Catalog.Layout.{
  u8, u16, u32, width, is_signed, scalar_element, struct_element, scalar, array, counted, optional,
  Field, Structs, find, ok, err, unfinished, not_optional, sum_fields, struct_width, element_width,
  require_scalar_reference, field_bounds, envelope_loop, envelope,
}
use stm32wb_hci.Catalog.Layout.Widths.{Ranked, struct_width-finishes}
use stm32wb_hci.Catalog.Layout.Bounds.{Size, empty, sent, envelope_within}

-- `Adv_Set_t` is 0; it has `Handle: u8` and `Duration: u16`.
abbrev adv_set : List Field
adv_set = record { name = 10; ty = scalar u8 } ∷ record { name = 11; ty = scalar u16 } ∷ []

abbrev structs : Structs
structs = (0, adv_set) ∷ []

-- `Enable: u8`, `Number_of_Sets: u8`, `Adv_Set: [Adv_Set_t; Number_of_Sets] (capacity 84)`
abbrev adv_enable : List Field
adv_enable =
    record { name = 1; ty = scalar u8 }
    ∷ record { name = 2; ty = scalar u8 }
    ∷ record { name = 3; ty = counted (struct_element 0) 2 84 }
    ∷ []

adv_envelope : envelope structs 2 adv_enable ≡ ok (2, 254)
unfolding envelope envelope_loop field_bounds find require_scalar_reference is_signed element_width
    struct_width sum_fields width
adv_envelope = refl

required_after_optional :
    envelope structs 1
      (record { name = 1; ty = optional u32 } ∷ record { name = 2; ty = scalar u8 } ∷ [])
    ≡ err not_optional
unfolding envelope envelope_loop field_bounds find width
required_after_optional = refl

counted_by_optional :
    envelope structs 1 (
      record { name = 1; ty = optional u8 }
      ∷ record { name = 2; ty = counted (scalar_element u8) 1 4 }
      ∷ [])
    ≡ err not_optional
unfolding envelope envelope_loop field_bounds find width
counted_by_optional = refl

-- A structure with an array of itself: the recursion goes on.
goes_on :
    struct_width ((0, record { name = 1; ty = array (struct_element 0) 2 } ∷ []) ∷ []) 5 0
    ≡ unfinished
unfolding struct_width sum_fields find
goes_on = refl

-- Two sets.
two_sets : Size structs 2 adv_enable (1 + (1 + (3 * 2 + 0)))
unfolding width element_width struct_width sum_fields find
two_sets = sent 1 _ refl (sent 1 _ refl (sent 6 0 (3, 2, omega arith, refl, refl) empty))

-- 1 has four of the sets.
abbrev nested : Structs
nested = (1, record { name = 12; ty = array (struct_element 0) 4 } ∷ []) ∷ structs

nested-Ranked : Ranked nested (λ name. name)
unfolding find
nested-Ranked name fields e = elim (Bool-cases (1 == name)) [
  | inl outer ↦
      let one : 1 ≡ name = ground (arith, outer) in
      let same : (record { name = 12; ty = array (struct_element 0) 4 } ∷ []) ≡ fields =
        some-injective (rw outer at e) in
      rw (← same, ← one) (omega arith, tt)
  | inr other ↦ elim (Bool-cases (0 == name)) [
    | inl inner ↦
        let same : adv_set ≡ fields = some-injective (rw (other, inner) at e) in
        rw (← same) (tt, (tt, tt))
    | inr neither ↦ absurd (nothing (rw (other, neither) at e))
  ]
]
  where
    some-injective : {xs ys : List Field} → some xs ≡ some ys → xs ≡ ys
    some-injective h = cc

    nothing : none ≡ some fields → ⊥
    nothing h = cc

struct_width-finishes_example : struct_width nested 2 1 ≢ unfinished
struct_width-finishes_example =
    struct_width-finishes nested (λ name. name) 2 1 nested-Ranked (omega arith)

envelope_within_example : (2 ≤ 1 + (1 + (3 * 2 + 0))) × (1 + (1 + (3 * 2 + 0)) ≤ 254)
envelope_within_example =
    envelope_within structs 2 adv_enable 2 254 (1 + (1 + (3 * 2 + 0))) adv_envelope two_sets
