-- ===== src/Catalog/Domain/Items/Filtering.antt =====
-- `Domain::items` of crates/stm32wb-catalog/src/domain.rs takes the accepted items in the order of the domain.
use mathlib.Core.List.{append_assoc, append-nil}
use stm32wb_hci.Prelude.{
  ◌≡◌, inl, inr, refl, ap, Bool, true, false, not, ◌&&◌, ◌||◌, Bool-cases, none, some, List, [],
  ◌∷◌, ◌++◌, arith, if◌then◌else◌,
}
use stm32wb_hci.Catalog.Target.{Profile}
use stm32wb_hci.Catalog.Domain.{DomainItem, Domain}
use stm32wb_hci.Catalog.Domain.Labels.{
  Verdict, accepts, rejects, restricted, otherwise, unknown, verdict,
}
use stm32wb_hci.Catalog.Domain.Items.{
  item_lt, Selection, accept, set_aside, select, selected, initial, items_of,
}
use stm32wb_hci.Catalog.Domain.Items.Orders.{item_lt-IsStrictOrder}
use stm32wb_hci.Catalog.Domain.Items.Sorting.{Ascending, pick, sort-pick}

abbrev pub is_unknown : Verdict → Bool
is_unknown unknown = true
is_unknown _ = false

abbrev pub is_restricted : Verdict → Bool
is_restricted restricted = true
is_restricted _ = false

abbrev pub is_otherwise : Verdict → Bool
is_otherwise otherwise = true
is_otherwise _ = false

abbrev pub is_accepted : Verdict → Bool
is_accepted accepts = true
is_accepted restricted = true
is_accepted _ = false

unfoldable pub any {ℓ} : {A : Type ℓ} → (A → Bool) → List A → Bool
any test [] = false
any test (a ∷ l) = test a || any test l

-- The specification: an item is accepted by its own label; one labelled `otherwise` where no item that is
-- restricted to some profiles applies.
abbrev pub applies : Bool → Verdict → Bool
applies any_restricted v = is_accepted v || (not any_restricted && is_otherwise v)

module _ (profile : Profile) where
  abbrev pub any_unknown : List DomainItem → Bool
  any_unknown items = any (λ i. is_unknown (verdict profile i)) items

  abbrev pub any_restricted : List DomainItem → Bool
  any_restricted items = any (λ i. is_restricted (verdict profile i)) items

  abbrev pub accepted_items : List DomainItem → List DomainItem
  accepted_items items = pick (λ i. applies (any_restricted items) (verdict profile i)) items

  abbrev picked : List DomainItem → Selection → Selection
  picked items state = record {
    items = state.items ++ pick (λ i. is_accepted (verdict profile i)) items;
    otherwise = state.otherwise ++ pick (λ i. is_otherwise (verdict profile i)) items;
    is_restricted = state.is_restricted || any_restricted items;
  }

  abbrev Selects : List DomainItem → Type 0
  Selects items =
      (state : Selection)
      → select profile items state ≡ (if any_unknown items then none else some (picked items state))

  verdict-cases : (item : DomainItem) → (v : Verdict) × (verdict profile item ≡ v)
  verdict-cases item = (verdict profile item, refl)

  select-step :
      (item : DomainItem) (items : List DomainItem) (v : Verdict)
      → verdict profile item ≡ v
      → Selects items
      → Selects (item ∷ items)
  unfolding select any pick
  select-step item items accepts e ih state =
      rw
        (
          select,
          e,
          ih (accept item state),
          append_assoc state.items (item ∷ []) (pick (λ i. is_accepted (verdict profile i)) items),
        )
        refl
  select-step item items rejects e ih state = rw (select, e, ih state) refl
  select-step item items restricted e ih state =
      rw
        (
          select,
          e,
          ih (record (accept item state) { is_restricted = true }),
          append_assoc state.items (item ∷ []) (pick (λ i. is_accepted (verdict profile i)) items),
        )
        (ground arith)
  select-step item items otherwise e ih state =
      rw
        (
          select,
          e,
          ih (set_aside item state),
          append_assoc state.otherwise (item ∷ [])
              (pick (λ i. is_otherwise (verdict profile i)) items),
        )
        refl
  select-step item items unknown e ih state = rw (select, e) refl

  select-picked : (items : List DomainItem) → Selects items
  unfolding select any pick
  select-picked [] state = rw (append-nil state.items, append-nil state.otherwise) (ground arith)
  select-picked (item ∷ items) state =
      select-step item items (verdict profile item) refl (select-picked items) state

  pick-ext :
      (p q : DomainItem → Bool) (items : List DomainItem)
      → ((item : DomainItem) → p item ≡ q item)
      → pick p items ≡ pick q items
  unfolding pick
  pick-ext p q [] h = refl
  pick-ext p q (item ∷ items) h = rw (h item, pick-ext p q items h) refl

  accepted_alone : (v : Verdict) → is_accepted v ≡ applies true v
  accepted_alone v = ground arith

  accepted-otherwise : (v : Verdict) → (is_accepted v && is_otherwise v) ≡ false
  accepted-otherwise v = ground arith

  selected-accepted_items :
      (items : List DomainItem)
      → Ascending item_lt items
      → selected (picked items initial) ≡ accepted_items items
  selected-accepted_items items h = elim (Bool-cases (any_restricted items)) [
    | inl some_apply ↦ rw some_apply (
        pick-ext (λ i. is_accepted (verdict profile i)) (λ i. applies true (verdict profile i))
          items (λ i. accepted_alone (verdict profile i)))
    | inr none_apply ↦ rw none_apply (
        sort-pick item_lt item_lt-IsStrictOrder (λ i. is_accepted (verdict profile i))
          (λ i. is_otherwise (verdict profile i)) (λ i. accepted-otherwise (verdict profile i))
          items h)
  ]

-- For items in ascending order, `items` fails where a label states a condition that it cannot interpret,
-- and otherwise gives the items of the domain that apply, in the order of the domain.
pub items_of-accepted_items :
    (self : Domain) (profile : Profile)
    → Ascending item_lt self.items
    → items_of self profile
      ≡ (if any_unknown profile self.items then none else some (accepted_items profile self.items))
unfolding items_of
items_of-accepted_items self profile h = elim (Bool-cases (any_unknown profile self.items)) [
  | inl fails ↦ rw (select-picked profile self.items initial, fails) refl
  | inr goes ↦
      rw (select-picked profile self.items initial, goes)
        (ap some (selected-accepted_items profile self.items h))
]
