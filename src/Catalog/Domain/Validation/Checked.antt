-- ===== src/Catalog/Domain/Validation/Checked.antt =====
-- What `validate_domain` of crates/stm32wb-catalog/src/domain.rs accepts, and what `ranges` gives of a domain
-- that it accepts.
use stm32wb_hci.Prelude.{
  ℕ, zero, suc, ◌≡◌, ◌≢◌, ◌↔◌, inl, inr, refl, ap, sym, ◌∙◌, Bool, true, false, Bool-cases,
  Option-cases, false_ne_true, Option, none, some, List, [], ◌∷◌, map, arith, is_none,
  if◌then◌else◌,
}
use stm32wb_hci.Prelude.Bytes.{All}
use stm32wb_hci.Prelude.Text.{All-weaken}
use stm32wb_hci.Prelude.Int.{ℤ}
use stm32wb_hci.Catalog.Bearers.{Layout, fields, unresolved}
use stm32wb_hci.Catalog.Layout.{Field}
use stm32wb_hci.Catalog.Target.{
  Profile, full_extended, full, light, hci_layer_extended, hci_layer, hci_adv_scan, wba_full,
  wba_basic_plus, wba_basic_features, wba_peripheral_only, wba_link_layer_only,
  wba_link_layer_only_basic, all_profiles,
}
use stm32wb_hci.Catalog.Domain.{DomainItem, values, Domain}
use stm32wb_hci.Catalog.Domain.Items.{item_lt, items_of, ok, range_of, ranges_of, map_items, ranges}
use stm32wb_hci.Catalog.Domain.Items.Orders.{item_lt-IsStrictOrder}
use stm32wb_hci.Catalog.Domain.Items.Sorting.{Ascending}
use stm32wb_hci.Catalog.Domain.Items.Filtering.{
  accepted_items, any_unknown, items_of-accepted_items,
}
use stm32wb_hci.Catalog.Domain.Validation.Bounds.{
  member_bounds, reading_of, IsAbove, member_range-bounds, member_bounds-IsAbove,
}
use stm32wb_hci.Catalog.Domain.Validation.Held.{
  IsHeld, IsNamed, no_error, find_field-IsNamed, find_field-first, check_items-All, All-check_items,
}
use mathlib.Core.Path.{subst}
use stm32wb_hci.Catalog.Domain.Validation.{
  member_range, DomainError, out_of_order, zero_unit, unknown_condition, find_field, signed_reading,
  check_items, any_disorder, is_zero_unit, any_failure, is_empty, check_domain, check_range,
  validate_domain,
}

-- The items of a profile are known.
abbrev pub Interpretable : Domain → Profile → Type 0
Interpretable domain profile = (items : List DomainItem) × (items_of domain profile ≡ some items)

-- The domain belongs to a type with bounds, and meets them.
abbrev pub InRange : Domain → Option (ℤ × ℤ) → Type 0
InRange domain bounds =
    (range : ℤ × ℤ) × (bounds ≡ some range)
    × (domain.items ≢ [])
    × All (IsHeld range.0 range.1 domain.kind) domain.items
    × Ascending item_lt domain.items
    × (domain.unit_us ≢ some 0)
    × ((profile : Profile) → Interpretable domain profile)

abbrev pub IsValid : Layout → ℕ → Domain → Type 0
IsValid unresolved member domain = Unit
IsValid (fields list) member domain =
    (field : Field) × IsNamed member field list × InRange domain (member_bounds field.ty)

head_least :
    (item next : DomainItem) (items : List DomainItem)
    → item_lt item next ≡ true
    → Ascending item_lt (next ∷ items)
    → All (λ b. item_lt item b ≡ true) (next ∷ items)
head_least item next items h up = (
  h,
  All-weaken (λ b. item_lt next b ≡ true) (λ b. item_lt item b ≡ true) items
      (λ b k. item_lt-IsStrictOrder.transitive item next b h k) up.0,
)

any_disorder-Ascending :
    (items : List DomainItem) → any_disorder items ≡ false → Ascending item_lt items
unfolding any_disorder
any_disorder-Ascending [] h = tt
any_disorder-Ascending (item ∷ []) h = (tt, tt)
any_disorder-Ascending (item ∷ next ∷ items) h =
    let up : Ascending item_lt (next ∷ items) =
      any_disorder-Ascending (next ∷ items) (ground (arith, h)) in
    (head_least item next items (ground (arith, h)) up, up)

known :
    (domain : Domain) (profile : Profile)
    → is_none (items_of domain profile) ≡ false
    → Interpretable domain profile
known domain profile = of_items (items_of domain profile)
  where
    of_items :
        (found : Option (List DomainItem))
        → is_none found ≡ false
        → (items : List DomainItem) × (found ≡ some items)
    of_items none h = absurd (false_ne_true (sym h))
    of_items (some items) h = (items, refl)

any_failure-none :
    (domain : Domain) (profile : Profile)
    → any_failure domain all_profiles ≡ false
    → is_none (items_of domain profile) ≡ false
unfolding any_failure
any_failure-none domain full_extended h = ground (arith, h)
any_failure-none domain full h = ground (arith, h)
any_failure-none domain light h = ground (arith, h)
any_failure-none domain hci_layer_extended h = ground (arith, h)
any_failure-none domain hci_layer h = ground (arith, h)
any_failure-none domain hci_adv_scan h = ground (arith, h)
any_failure-none domain wba_full h = ground (arith, h)
any_failure-none domain wba_basic_plus h = ground (arith, h)
any_failure-none domain wba_basic_features h = ground (arith, h)
any_failure-none domain wba_peripheral_only h = ground (arith, h)
any_failure-none domain wba_link_layer_only h = ground (arith, h)
any_failure-none domain wba_link_layer_only_basic h = ground (arith, h)

Ascending-any_disorder :
    (items : List DomainItem) → Ascending item_lt items → any_disorder items ≡ false
unfolding any_disorder
Ascending-any_disorder [] h = refl
Ascending-any_disorder (item ∷ []) h = refl
Ascending-any_disorder (item ∷ next ∷ items) h =
    rw (h.0.0, Ascending-any_disorder (next ∷ items) h.1) refl

none-any_failure :
    (domain : Domain) (list : List Profile)
    → ((profile : Profile) → Interpretable domain profile)
    → any_failure domain list ≡ false
unfolding any_failure
none-any_failure domain [] h = refl
none-any_failure domain (profile ∷ list) h = rw ((h profile).1, none-any_failure domain list h) refl

is_zero_unit_iff : (unit : Option ℕ) → (is_zero_unit unit ≡ false) ↔ (unit ≢ some 0)
is_zero_unit_iff none = (λ h e. cc, λ h. refl)
is_zero_unit_iff (some zero) = (λ h. absurd (false_ne_true (sym h)), λ h. absurd (h refl))
is_zero_unit_iff (some (suc n)) = (λ h e. cc, λ h. ground arith)

is_empty_iff : (items : List DomainItem) → (is_empty items ≡ false) ↔ (items ≢ [])
is_empty_iff [] = (λ h. absurd (false_ne_true (sym h)), λ h. absurd (h refl))
is_empty_iff (item ∷ items) = (λ h e. cc, λ h. refl)

abbrev Passes : Domain → Option DomainError → Type 0
Passes domain checked =
    (checked ≡ none)
    × Ascending item_lt domain.items
    × (domain.unit_us ≢ some 0)
    × ((profile : Profile) → Interpretable domain profile)

check_domain_iff :
    (domain : Domain) (checked : Option DomainError)
    → (check_domain domain checked ≡ none) ↔ Passes domain checked
check_domain_iff domain (some e) = (λ h. absurd (no_error e h), λ h. h.0)
check_domain_iff domain none = (
  λ h. elim (Bool-cases (any_disorder domain.items)) [
    | inl disorder ↦ absurd (no_error out_of_order (rw disorder at h))
    | inr order ↦ elim (Bool-cases (is_zero_unit domain.unit_us)) [
      | inl zero_one ↦ absurd (no_error zero_unit (rw (order, zero_one) at h))
      | inr unit ↦ elim (Bool-cases (any_failure domain all_profiles)) [
        | inl failure ↦ absurd (no_error unknown_condition (rw (order, unit, failure) at h))
        | inr success ↦ (
          refl,
          any_disorder-Ascending domain.items order,
          (is_zero_unit_iff domain.unit_us).0 unit,
          λ profile. known domain profile (any_failure-none domain profile success),
        )
      ]
    ]
  ],
  λ h.
      let (checked, up, unit, known_items) = h in
      let order : any_disorder domain.items ≡ false = Ascending-any_disorder domain.items up in
      let positive : is_zero_unit domain.unit_us ≡ false =
        (is_zero_unit_iff domain.unit_us).1 unit in
      let success : any_failure domain all_profiles ≡ false =
        none-any_failure domain all_profiles known_items in
      rw (order, positive, success) refl,
)

check_range_iff :
    (domain : Domain) (range : Option (ℤ × ℤ))
    → ((bounds : ℤ × ℤ) → reading_of range ≡ some bounds → IsAbove bounds)
    → (check_range domain range ≡ none) ↔ InRange domain (reading_of range)
check_range_iff domain none above = (λ h. absurd (no_error _ h), λ h. none_bounds h)
  where
    none_bounds : InRange domain none → check_range domain none ≡ none
    none_bounds (range, impossible, some_items, held, up, unit, known_items) = cc
check_range_iff domain (some (min, max)) above =
    let least : IsAbove (signed_reading min max, max) = above _ refl in
    let checks =
      check_domain_iff domain (check_items (signed_reading min max) max domain.kind domain.items) in
    (
      λ h. elim (Bool-cases (is_empty domain.items)) [
        | inl empty ↦ absurd (no_error _ (rw empty at h))
        | inr some_items ↦
            let (held, up, unit, known_items) = checks.0 (rw some_items at h) in
            (
              (signed_reading min max, max),
              refl,
              (is_empty_iff domain.items).0 some_items,
              check_items-All (signed_reading min max) max domain.kind least domain.items held,
              up,
              unit,
              known_items,
            )
      ],
      λ h.
          let (range, same, some_items, held, up, unit, known_items) = h in
          let own : range ≡ (signed_reading min max, max) = cc in
          let nonempty : is_empty domain.items ≡ false = (is_empty_iff domain.items).1 some_items in
          let all_held : All (IsHeld (signed_reading min max) max domain.kind) domain.items =
            subst (λ r. All (IsHeld r.0 r.1 domain.kind) domain.items) own held in
          rw nonempty (
            checks.1 (
              All-check_items (signed_reading min max) max domain.kind least domain.items all_held,
              up,
              unit,
              known_items,
            )),
    )

field_iff :
    (domain : Domain) (field : Field)
    → (check_range domain (member_range field.ty) ≡ none) ↔ InRange domain (member_bounds field.ty)
field_iff domain field =
    let table = member_range-bounds field.ty in
    subst (λ o. (check_range domain (member_range field.ty) ≡ none) ↔ InRange domain o) table
      (check_range_iff domain (member_range field.ty)
        (λ bounds e. member_bounds-IsAbove field.ty bounds (sym table ∙ e)))

pub validate_domain_iff :
    (layout : Layout) (member : ℕ) (domain : Domain)
    → (validate_domain layout member domain ≡ none) ↔ IsValid layout member domain
unfolding validate_domain
validate_domain_iff unresolved member domain = (λ h. tt, λ h. refl)
validate_domain_iff (fields list) member domain = (
  λ h. elim (Option-cases (find_field member list)) [
    | inl missing ↦ absurd (no_error _ (rw missing at h))
    | inr (field, found) ↦ (
      field,
      find_field-IsNamed member list field found,
      (field_iff domain field).0 (rw found at h),
    )
  ],
  λ h.
      let (field, named, in_range) = h in
      let (before, behind, place, first, name) = named in
      let found : find_field member list ≡ some field =
        rw place (find_field-first member before behind field first name) in
      rw found ((field_iff domain field).1 in_range),
)

-- Of a domain of values that is accepted for a resolved layout, every profile has ranges: those of the items
-- that apply, in order.
pub validated_ranges :
    (list : List Field) (member : ℕ) (domain : Domain) (profile : Profile)
    → validate_domain (fields list) member domain ≡ none
    → domain.kind ≡ values
    → ranges domain profile ≡ ok (map range_of (accepted_items profile domain.items))
unfolding ranges
validated_ranges list member domain profile h kind =
    let (field, named, in_range) = (validate_domain_iff (fields list) member domain).0 h in
    let (range, bounds, some_items, held, up, unit, known_items) = in_range in
    let (items, of_profile) = known_items profile in
    ap (λ k. ranges_of k (items_of domain profile)) kind
    ∙ rw (items_of-accepted_items domain profile up) (
        of_choice (any_unknown profile domain.items) items
          (sym (items_of-accepted_items domain profile up) ∙ of_profile))
  where
    of_choice :
        (b : Bool) (items : List DomainItem)
        → (if b then none else some (accepted_items profile domain.items)) ≡ some items
        → map_items (map range_of) (if b then none else some (accepted_items profile domain.items))
          ≡ ok (map range_of (accepted_items profile domain.items))
    of_choice true items q = cc
    of_choice false items q = refl
