-- ===== src/Catalog/Bearers/Checks.antt =====
-- What `validate_bearers` of crates/stm32wb-catalog/src/lib.rs checks, and what the bearers of
-- crates/stm32wb-hci/src/wire.rs rely on.
use stm32wb_hci.Prelude.{
  ℕ, ◌≤◌, ◌≡◌, ◌≢◌, inl, inr, refl, ap, true, false, ◌&&◌, Bool-cases, false_ne_true, none, some,
  List, [], ◌∷◌, ◌++◌, arith, ◌==◌,
}
use stm32wb_hci.Prelude.Bytes.{All}
use stm32wb_hci.Prelude.Text.{All-weaken}
use stm32wb_hci.Catalog.Layout.{FieldType, scalar, u16, Field}
use stm32wb_hci.Catalog.Bearers.{
  Bearer, BearerError, listed_twice, not_u16_member, invalid_range, Layout, fields, unresolved,
  is_u16, lists_member, has_u16, is_member, valid_range, bearers_loop, validate_bearers,
}

-- The member is a u16 field of the layout, if that is resolved.
abbrev pub IsMember : ℕ → Layout → Type 0
IsMember member unresolved = Unit
IsMember member (fields list) =
    (before : List Field) × (field : Field) × (behind : List Field) × (list
      ≡ before ++ (field ∷ behind))
    × (field.name ≡ member)
    × (field.ty ≡ scalar u16)

abbrev pub IsChecked : Layout → Bearer ℕ → Type 0
IsChecked layout bearer =
    IsMember bearer.member layout
    × (bearer.first ≡ 0xea00)
    × (bearer.first ≤ bearer.last)
    × (bearer.last ≤ 0xeaff)

-- No member is listed twice.
abbrev pub Distinct : List (Bearer ℕ) → Type 0
Distinct [] = Unit
Distinct (bearer ∷ bearers) = All (λ other. bearer.member ≢ other.member) bearers × Distinct bearers

is_u16-eq : (ty : FieldType) → is_u16 ty ≡ true → ty ≡ scalar u16
is_u16-eq ty h = ground (arith, h)

has_u16-IsMember :
    (member : ℕ) (list : List Field) → has_u16 member list ≡ true → IsMember member (fields list)
unfolding has_u16
has_u16-IsMember member [] h = absurd (false_ne_true h)
has_u16-IsMember member (field ∷ list) h =
    elim (Bool-cases ((field.name == member) && is_u16 field.ty)) [
      | inl here ↦
          ([], field, list, refl, ground (arith, here), is_u16-eq field.ty (ground (arith, here)))
      | inr there ↦ later (has_u16-IsMember member list (rw there at h))
    ]
  where
    later : IsMember member (fields list) → IsMember member (fields (field ∷ list))
    later (before, found, behind, place, name, ty) =
        (field ∷ before, found, behind, ap (λ l. field ∷ l) place, name, ty)

lists_member-All :
    (member : ℕ) (before : List (Bearer ℕ))
    → lists_member member before ≡ false
    → All (λ other. other.member ≢ member) before
unfolding lists_member
lists_member-All member [] h = tt
lists_member-All member (other ∷ before) h =
    (ground (arith, h), lists_member-All member before (ground (arith, h)))

abbrev Apart : List (Bearer ℕ) → Bearer ℕ → Type 0
Apart before bearer = All (λ other. other.member ≢ bearer.member) before

All-left : (P : Bearer ℕ → Type 0) (xs ys : List (Bearer ℕ)) → All P (xs ++ ys) → All P xs
All-left P [] ys h = tt
All-left P (x ∷ xs) ys h = (h.0, All-left P xs ys h.1)

All-last :
    (P : Bearer ℕ → Type 0) (xs : List (Bearer ℕ)) (y : Bearer ℕ) → All P (xs ++ (y ∷ [])) → P y
All-last P [] y h = h.0
All-last P (x ∷ xs) y h = All-last P xs y h.1

is_member-IsMember :
    (member : ℕ) (layout : Layout) → is_member member layout ≡ true → IsMember member layout
is_member-IsMember member (fields list) h = has_u16-IsMember member list h
is_member-IsMember member unresolved h = tt

module _ (layout : Layout) where
  bearers_loop-All :
      (before bearers : List (Bearer ℕ))
      → bearers_loop layout before bearers ≡ none
      → All (IsChecked layout) bearers × All (Apart before) bearers × Distinct bearers
  unfolding bearers_loop
  bearers_loop-All before [] h = (tt, tt, tt)
  bearers_loop-All before (bearer ∷ bearers) h =
      elim (Bool-cases (lists_member bearer.member before)) [
        | inl twice ↦ absurd (no_error listed_twice (rw twice at h))
        | inr once ↦ elim (Bool-cases (is_member bearer.member layout)) [
          | inr missing ↦ absurd (no_error not_u16_member (rw (once, missing) at h))
          | inl member ↦ elim (Bool-cases (valid_range bearer)) [
            | inr invalid ↦ absurd (no_error invalid_range (rw (once, member, invalid) at h))
            | inl valid ↦
                with_rest once member valid (
                  bearers_loop-All (before ++ (bearer ∷ [])) bearers
                    (rw (once, member, valid) at h))
          ]
        ]
      ]
    where
      no_error : (e : BearerError) → some e ≡ none → ⊥
      no_error e q = cc

      with_rest :
          lists_member bearer.member before ≡ false
          → is_member bearer.member layout ≡ true
          → valid_range bearer ≡ true
          → All (IsChecked layout) bearers
            × All (Apart (before ++ (bearer ∷ []))) bearers
            × Distinct bearers
          → All (IsChecked layout) (bearer ∷ bearers)
            × All (Apart before) (bearer ∷ bearers)
            × Distinct (bearer ∷ bearers)
      with_rest once member valid (checked, apart, distinct) = (
        (
          (
            is_member-IsMember bearer.member layout member,
            ground (arith, valid),
            ground (arith, valid),
            ground (arith, valid),
          ),
          checked,
        ),
        (
          lists_member-All bearer.member before once,
          All-weaken (Apart (before ++ (bearer ∷ []))) (Apart before) bearers
              (λ b h. All-left (λ o. o.member ≢ b.member) before (bearer ∷ []) h) apart,
        ),
        (
          All-weaken (Apart (before ++ (bearer ∷ []))) (λ b. bearer.member ≢ b.member) bearers
              (λ b h. All-last (λ o. o.member ≢ b.member) before bearer h) apart,
          distinct,
        ),
      )

-- Bearers that the catalog accepts are of distinct members, and their ranges begin at 0xEA00 and end by
-- 0xEAFF: the channel indexes from which `AttBearer` makes bearers. If the layout is resolved, each is of a
-- u16 member of it; of an unresolved layout any member is accepted.
pub validate_bearers_sound :
    (layout : Layout) (bearers : List (Bearer ℕ))
    → validate_bearers layout bearers ≡ none
    → All (IsChecked layout) bearers × Distinct bearers
unfolding validate_bearers
validate_bearers_sound layout bearers h =
    let (checked, apart, distinct) = bearers_loop-All layout [] bearers h in (checked, distinct)
