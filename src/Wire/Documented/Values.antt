-- ===== src/Wire/Documented/Values.antt =====
-- What the checks on values, lengths and units answer, as statements on every value.
use stm32wb_hci.Prelude.{
  ◌≡◌, ◌↔◌, inl, inr, refl, Bool, true, false, ◌&&◌, ◌||◌, none, some, List, [], ◌∷◌, ◌++◌, is_none,
  arith, Bool-ext, Bool-cases,
}
use stm32wb_hci.Prelude.Int.{ℤ, ◌≤ℤ◌, leb_ℤ, eqb_ℤ_iff}
use stm32wb_hci.Wire.Base.{WireType}
use stm32wb_hci.Wire.Documented.{
  Range, within, covered, declared, or_empty, contains, contains_all, values_documented,
  all_values_covered, all_ranges_covered, documented_values_declared, all_declared, values_exactly,
}
use stm32wb_hci.Wire.Documented.Scan.{covered_iff}
use stm32wb_hci.Wire.Documented.Declared.{singles, declared-covered, within-append, within-singles}

-- Whether a type encodes a value: it lists it, or one of its ranges holds it.
unfoldable pub encodes : WireType → ℤ → Bool
encodes t v = contains (or_empty t.values) v || within v (or_empty t.ranges)

-- No item is empty.
abbrev pub AllOrdered : List Range → Type 0
AllOrdered [] = Unit
AllOrdered ((first, last) ∷ items) = (first ≤ℤ last) × AllOrdered items

le_between : (a b : ℤ) → a ≤ℤ b → b ≤ℤ a → a ≡ b
le_between a b h k = (eqb_ℤ_iff a b).0 (ground arith)

module _ (documented : List Range) where
  covered_single : (value : ℤ) → covered value value documented ≡ within value documented
  covered_single value =
      let (to, from) = covered_iff value value documented (omega arith) in
      Bool-ext _ _ (
        λ h. to h value (omega arith) (omega arith),
        λ h. from (λ v lo hi. rw (← le_between value v lo hi) h),
      )

  all_values_covered_sound :
      (values : List ℤ) (v : ℤ)
      → all_values_covered values documented ≡ true
      → contains values v ≡ true
      → within v documented ≡ true
  unfolding all_values_covered contains
  all_values_covered_sound [] v h m = cc
  all_values_covered_sound (value ∷ values) v h m =
      ground (arith, eqb_ℤ_iff value v, covered_single value, all_values_covered_sound values v)

  all_values_covered_complete :
      (values : List ℤ)
      → ((v : ℤ) → contains values v ≡ true → within v documented ≡ true)
      → all_values_covered values documented ≡ true
  unfolding all_values_covered contains
  all_values_covered_complete [] all = refl
  all_values_covered_complete (value ∷ values) all = ground (
    arith,
    covered_single value,
    eqb_ℤ_iff value value,
    all value,
    all_values_covered_complete values (λ v m. all v (ground arith)),
  )

  all_ranges_covered_sound :
      (ranges : List Range) (v : ℤ)
      → AllOrdered ranges
      → all_ranges_covered ranges documented ≡ true
      → within v ranges ≡ true
      → within v documented ≡ true
  unfolding all_ranges_covered within
  all_ranges_covered_sound [] v o h m = cc
  all_ranges_covered_sound ((first, last) ∷ ranges) v o h m =
      let (to, _) = covered_iff first last documented o.0 in
      elim (Bool-cases (leb_ℤ first v && leb_ℤ v last)) [
        | inl here ↦ to (ground arith) v (ground arith) (ground arith)
        | inr there ↦ all_ranges_covered_sound ranges v o.1 (ground arith) (ground arith)
      ]

  all_ranges_covered_complete :
      (ranges : List Range)
      → AllOrdered ranges
      → ((v : ℤ) → within v ranges ≡ true → within v documented ≡ true)
      → all_ranges_covered ranges documented ≡ true
  unfolding all_ranges_covered within
  all_ranges_covered_complete [] o all = refl
  all_ranges_covered_complete ((first, last) ∷ ranges) o all = ground (
    arith,
    (covered_iff first last documented o.0).1 (λ v lo hi. all v (ground arith)),
    all_ranges_covered_complete ranges o.1 (λ v m. all v (ground arith)),
  )

module _ (t : WireType) (documented : List Range) where
  -- For a type of values or ranges, none of them empty, `values_documented` answers whether every
  -- value that the type encodes lies in a documented item.
  pub values_documented_iff :
      t.bits ≡ none
      → AllOrdered (or_empty t.ranges)
      → (values_documented t documented ≡ true)
        ↔ ((v : ℤ) → encodes t v ≡ true → within v documented ≡ true)
  unfolding values_documented encodes
  values_documented_iff nb o = (
    λ h v m. elim (Bool-cases (contains (or_empty t.values) v)) [
      | inl listed ↦
          all_values_covered_sound documented (or_empty t.values) v (ground (arith, nb)) listed
      | inr ranged ↦
          all_ranges_covered_sound documented (or_empty t.ranges) v o (ground (arith, nb))
            (ground arith)
    ],
    λ all.
        let vs =
          all_values_covered_complete documented (or_empty t.values)
            (λ v m. all v (ground arith)) in
        let rs =
          all_ranges_covered_complete documented (or_empty t.ranges) o
            (λ v m. all v (ground arith)) in
        rw (nb, vs, rs),
  )

  within_declared :
      (v : ℤ) → within v (singles (or_empty t.values) ++ or_empty t.ranges) ≡ encodes t v
  unfolding encodes
  within_declared v = rw (within-append, within-singles)

  declared_iff :
      (first last : ℤ)
      → first ≤ℤ last
      → (declared first last t.values t.ranges ≡ true)
        ↔ ((v : ℤ) → first ≤ℤ v → v ≤ℤ last → encodes t v ≡ true)
  declared_iff first last le =
      let (to, from) =
        covered_iff first last (singles (or_empty t.values) ++ or_empty t.ranges) le in
      rw declared-covered (
        λ h v lo hi. rw (← within_declared v) (to h v lo hi),
        λ all. from (λ v lo hi. rw within_declared (all v lo hi)),
      )

all_declared_sound :
    (t : WireType) (documented : List Range) (v : ℤ)
    → AllOrdered documented
    → all_declared t documented ≡ true
    → within v documented ≡ true
    → encodes t v ≡ true
unfolding all_declared within
all_declared_sound t [] v o h m = cc
all_declared_sound t ((first, last) ∷ documented) v o h m =
    elim (Bool-cases (leb_ℤ first v && leb_ℤ v last)) [
      | inl here ↦
          (declared_iff t documented first last o.0).0 (ground arith) v (ground arith)
            (ground arith)
      | inr there ↦ all_declared_sound t documented v o.1 (ground arith) (ground arith)
    ]

all_declared_complete :
    (t : WireType) (documented : List Range)
    → AllOrdered documented
    → ((v : ℤ) → within v documented ≡ true → encodes t v ≡ true)
    → all_declared t documented ≡ true
unfolding all_declared within
all_declared_complete t [] o all = refl
all_declared_complete t ((first, last) ∷ documented) o all = ground (
  arith,
  (declared_iff t documented first last o.0).1 (λ v lo hi. all v (ground arith)),
  all_declared_complete t documented o.1 (λ v m. all v (ground arith)),
)

-- For a type of values or ranges and no empty documented item, `documented_values_declared` answers
-- whether the type encodes every value of a documented item.
pub documented_values_declared_iff :
    (t : WireType) (documented : List Range)
    → t.bits ≡ none
    → is_none t.values && is_none t.ranges ≡ false
    → AllOrdered documented
    → (documented_values_declared t documented ≡ true)
      ↔ ((v : ℤ) → within v documented ≡ true → encodes t v ≡ true)
unfolding documented_values_declared encodes
documented_values_declared_iff t documented nb listed o =
    rw (nb, listed)
      (
        λ h v m. all_declared_sound t documented v o h m,
        λ all. all_declared_complete t documented o all,
      )

contains_all_iff :
    (set items : List ℤ)
    → (contains_all set items ≡ true) ↔ ((v : ℤ) → contains items v ≡ true → contains set v ≡ true)
unfolding contains_all contains
contains_all_iff set [] = (λ h v m. cc, λ all. refl)
contains_all_iff set (item ∷ items) = (
  λ h v m. ground (arith, eqb_ℤ_iff item v, (contains_all_iff set items).0 (ground arith) v),
  λ all. ground (
    arith,
    all item,
    eqb_ℤ_iff item item,
    (contains_all_iff set items).1 (λ v m. all v (ground arith)),
  ),
)

-- For a type that lists values, `values_exactly` answers whether a value is listed exactly when it
-- is documented.
pub values_exactly_iff :
    (t : WireType) (values documented : List ℤ)
    → t.values ≡ some values
    → (values_exactly t documented ≡ true) ↔ ((v : ℤ) → contains values v ≡ contains documented v)
unfolding values_exactly
values_exactly_iff t values documented listed =
    let (to, from) = contains_all_iff values documented in
    let (to', from') = contains_all_iff documented values in
    rw listed (
      λ h v. Bool-ext _ _ (to' (ground arith) v, to (ground arith) v),
      λ all. rw (from (λ v m. rw all m), from' (λ v m. rw (← all v) m)),
    )
