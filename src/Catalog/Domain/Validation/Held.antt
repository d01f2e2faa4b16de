-- ===== src/Catalog/Domain/Validation/Held.antt =====
-- The member that `validate_domain` of crates/stm32wb-catalog/src/domain.rs finds, and the items that it holds.
use stm32wb_hci.Prelude.{
  ℕ, ◌≡◌, ◌≢◌, ◌↔◌, inl, inr, ◌++◌, ◌==◌, ==_iff, refl, ap, sym, ◌∙◌, true, false, ◌||◌, Bool-cases,
  false_ne_true, none, some, List, [], ◌∷◌, arith,
}
use stm32wb_hci.Prelude.Bytes.{All}
use stm32wb_hci.Prelude.Int.{ℤ, negsuc, leb_ℤ, eqb_ℤ_iff}
use stm32wb_hci.Catalog.Layout.{Field}
use stm32wb_hci.Catalog.Domain.{DomainItem, DomainKind, values, flags}
use stm32wb_hci.Catalog.Domain.Items.{ltb_ℤ}
use stm32wb_hci.Catalog.Domain.Validation.Flags.{IsSingleBit, several_bits_iff}
use stm32wb_hci.Catalog.Domain.Validation.{
  DomainError, not_held, not_single_bit, find_field, not_flag, check_items,
}

-- Flags are single bits or zero.
abbrev pub IsFlagged : DomainKind → DomainItem → Type 0
IsFlagged values item = Unit
IsFlagged flags item = (item.first ≡ item.last) × IsSingleBit item.first

abbrev pub IsHeld : ℤ → ℤ → DomainKind → DomainItem → Type 0
IsHeld min max kind item =
    (leb_ℤ min item.first ≡ true) × (leb_ℤ item.last max ≡ true) × IsFlagged kind item

-- The first field with the name.
abbrev pub IsNamed : ℕ → Field → List Field → Type 0
IsNamed member field list =
    (before : List Field) × (behind : List Field) × (list ≡ before ++ (field ∷ behind))
    × All (λ f. f.name ≢ member) before
    × (field.name ≡ member)

pub no_error : (e : DomainError) → some e ≢ none
no_error e q = cc

pub find_field-IsNamed :
    (member : ℕ) (list : List Field) (field : Field)
    → find_field member list ≡ some field
    → IsNamed member field list
unfolding find_field
find_field-IsNamed member [] field h = cc
find_field-IsNamed member (head ∷ list) field h = elim (Bool-cases (head.name == member)) [
  | inl here ↦
      let found : some head ≡ some field = rw (find_field, here) at h in
      let same : head ≡ field = cc in
      ([], list, ap (λ f. f ∷ list) same, tt, rw (← same) (ground (arith, here)))
  | inr there ↦
      let (before, behind, place, others, name) =
        find_field-IsNamed member list field (rw (find_field, there) at h) in
      (
        head ∷ before,
        behind,
        ap (λ l. head ∷ l) place,
        (λ e. false_ne_true (sym there ∙ (==_iff head.name member).1 e), others),
        name,
      )
]

pub find_field-first :
    (member : ℕ) (before behind : List Field) (field : Field)
    → All (λ f. f.name ≢ member) before
    → field.name ≡ member
    → find_field member (before ++ (field ∷ behind)) ≡ some field
unfolding find_field
find_field-first member [] behind field h name =
    let here : (field.name == member) ≡ true = (==_iff field.name member).1 name in rw here refl
find_field-first member (head ∷ before) behind field h name =
    elim (Bool-cases (head.name == member)) [
      | inl here ↦ absurd (h.0 ((==_iff head.name member).0 here))
      | inr there ↦ rw there (find_field-first member before behind field h.1 name)
    ]

not_flag_iff :
    (kind : DomainKind) (item : DomainItem)
    → leb_ℤ (negsuc 0x7fffffffffffffff) item.first ≡ true
    → (not_flag kind item ≡ false) ↔ IsFlagged kind item
not_flag_iff values item h = (λ e. tt, λ f. refl)
not_flag_iff flags item h =
    let single = several_bits_iff item.first h in
    let equal = eqb_ℤ_iff item.first item.last in
    (
      λ e. (equal.0 (ground (arith, e)), single.0 (ground (arith, e))),
      λ f. let a = equal.1 f.0 in let b = single.1 f.1 in ground (arith, a, b),
    )

leb_ℤ_trans : (a b c : ℤ) → leb_ℤ a b ≡ true → leb_ℤ b c ≡ true → leb_ℤ a c ≡ true
leb_ℤ_trans a b c h k = ground (arith, h, k)

module _ (min max : ℤ) (kind : DomainKind)
    (least : leb_ℤ (negsuc 0x7fffffffffffffff) min ≡ true) where
  pub check_items-All :
      (items : List DomainItem)
      → check_items min max kind items ≡ none
      → All (IsHeld min max kind) items
  unfolding check_items
  check_items-All [] h = tt
  check_items-All (item ∷ items) h =
      elim (Bool-cases (ltb_ℤ item.first min || ltb_ℤ max item.last)) [
        | inl outside ↦ absurd (no_error not_held (rw outside at h))
        | inr inside ↦ elim (Bool-cases (not_flag kind item)) [
          | inl several ↦ absurd (no_error not_single_bit (rw (inside, several) at h))
          | inr one ↦
              let low : leb_ℤ min item.first ≡ true = ground (arith, inside) in
              (
                (
                  low,
                  ground (arith, inside),
                  (not_flag_iff kind item (leb_ℤ_trans _ min item.first least low)).0 one,
                ),
                check_items-All items (rw (inside, one) at h),
              )
        ]
      ]

  pub All-check_items :
      (items : List DomainItem)
      → All (IsHeld min max kind) items
      → check_items min max kind items ≡ none
  unfolding check_items
  All-check_items [] h = refl
  All-check_items (item ∷ items) h =
      let (low, high, flag) = h.0 in
      let inside : (ltb_ℤ item.first min || ltb_ℤ max item.last) ≡ false =
        ground (arith, low, high) in
      let one : not_flag kind item ≡ false =
        (not_flag_iff kind item (leb_ℤ_trans _ min item.first least low)).1 flag in
      rw (inside, one) (All-check_items items h.1)
