-- ===== src/Catalog/Domain/Items/Results.antt =====
-- What `ranges`, `lengths` and `bits` of crates/stm32wb-catalog/src/domain.rs give, and what they give to the
-- compile-time checks of crates/stm32wb-hci/src/wire.rs.
use Prim.Native.Nat.{bit_or}
use stm32wb_hci.Prelude.{
  ℕ, ◌≡◌, ◌⊎◌, inl, inr, ◌↔◌, refl, ap, sym, ◌∙◌, Bool, true, false, ◌&&◌, Bool-cases, Option-cases,
  false_ne_true, Option, none, some, List, [], ◌∷◌, map, arith, ◌==◌, if◌then◌else◌,
}
use stm32wb_hci.Prelude.Bytes.{All}
use stm32wb_hci.Prelude.Text.{All-weaken}
use stm32wb_hci.Prelude.Bits.{bit, bit-bit_or, bit-le, bit-zero}
use stm32wb_hci.Prelude.Int.{ℤ, leb_ℤ, eqb_ℤ, eqb_ℤ_iff}
use stm32wb_hci.Wire.Base.{WireType}
use stm32wb_hci.Wire.Documented.{within, or_empty, values_documented}
use stm32wb_hci.Wire.Documented.Values.{encodes, AllOrdered, values_documented_iff}
use stm32wb_hci.Catalog.Target.{Profile}
use stm32wb_hci.Catalog.Domain.{DomainItem, Domain, DomainKind, values, flags, item_length}
use stm32wb_hci.Catalog.Domain.Labels.{verdict}
use stm32wb_hci.Catalog.Domain.Items.{
  item_lt, items_of, ok, map_items, range_of, ranges_of, ranges, single_lengths, lengths_of,
  lengths, as_u64, union_of, bits_of, bits,
}
use stm32wb_hci.Catalog.Domain.Items.Sorting.{Ascending, pick}
use stm32wb_hci.Catalog.Domain.Items.Filtering.{
  any, applies, any_restricted, accepted_items, any_unknown, items_of-accepted_items,
}

-- An item stands in a list.
abbrev pub Listed : {A : Type 0} → A → List A → Type 0
Listed a [] = ⊥
Listed a (b ∷ l) = (a ≡ b) ⊎ Listed a l

-- An item of the domain that the profile accepts holds the value.
abbrev pub Accepts : Domain → Profile → ℤ → Type 0
Accepts self profile v =
    (item : DomainItem) × Listed item self.items
    × (applies (any_restricted profile self.items) (verdict profile item) ≡ true)
    × (leb_ℤ item.first v ≡ true)
    × (leb_ℤ v item.last ≡ true)

within-pick :
    (takes : DomainItem → Bool) (items : List DomainItem) (v : ℤ)
    → within v (map range_of (pick takes items)) ≡ true
    → (item : DomainItem) × Listed item items
      × (takes item ≡ true)
      × (leb_ℤ item.first v ≡ true)
      × (leb_ℤ v item.last ≡ true)
unfolding within pick
within-pick takes [] v h = absurd (false_ne_true h)
within-pick takes (item ∷ items) v h = elim (Bool-cases (takes item)) [
  | inr passed ↦ later (within-pick takes items v (rw passed at h))
  | inl taken ↦ elim (Bool-cases (leb_ℤ item.first v && leb_ℤ v item.last)) [
    | inl holds ↦ (item, inl refl, taken, ground (arith, holds), ground (arith, holds))
    | inr misses ↦ later (within-pick takes items v (rw (taken, misses) at h))
  ]
]
  where
    later :
        (found : DomainItem) × Listed found items
          × (takes found ≡ true)
          × (leb_ℤ found.first v ≡ true)
          × (leb_ℤ v found.last ≡ true)
        → (found : DomainItem) × Listed found (item ∷ items)
          × (takes found ≡ true)
          × (leb_ℤ found.first v ≡ true)
          × (leb_ℤ v found.last ≡ true)
    later (found, place, taken, low, high) = (found, inr place, taken, low, high)

ranges-accepted :
    (self : Domain) (profile : Profile) (found : List (ℤ × ℤ))
    → Ascending item_lt self.items
    → ranges self profile ≡ ok found
    → found ≡ map range_of (accepted_items profile self.items)
unfolding ranges
ranges-accepted self profile found up h = of_kind self.kind h
  where
    of_items :
        (b : Bool)
        → map_items (map range_of) (if b then none else some (accepted_items profile self.items))
          ≡ ok found
        → found ≡ map range_of (accepted_items profile self.items)
    of_items true q = cc
    of_items false q = cc

    of_kind :
        (kind : DomainKind)
        → ranges_of kind (items_of self profile) ≡ ok found
        → found ≡ map range_of (accepted_items profile self.items)
    of_kind flags q = cc
    of_kind values q =
        of_items (any_unknown profile self.items)
          (sym (ap (map_items (map range_of)) (items_of-accepted_items self profile up)) ∙ q)

-- A wire type that `values_documented` accepts for the ranges of a profile encodes only values that an item
-- of the domain holds which the profile accepts.
pub values_accepted :
    (t : WireType) (self : Domain) (profile : Profile) (found : List (ℤ × ℤ)) (v : ℤ)
    → t.bits ≡ none
    → AllOrdered (or_empty t.ranges)
    → Ascending item_lt self.items
    → ranges self profile ≡ ok found
    → values_documented t found ≡ true
    → encodes t v ≡ true
    → Accepts self profile v
values_accepted t self profile found v nb ordered up r documented encoded =
    within-pick (λ i. applies (any_restricted profile self.items) (verdict profile i)) self.items v
      (rw (← ranges-accepted self profile found up r)
        ((values_documented_iff t found nb ordered).0 documented v encoded))

-- The entry of one item, if it is a single value with a length.
single_lengths-Listed :
    (items : List DomainItem)
    → All (λ l. Listed (l.0, l.0) (map range_of items)) (single_lengths items)
unfolding single_lengths
single_lengths-Listed [] = tt
single_lengths-Listed (item ∷ items) =
    let rest =
      All-weaken (λ (l : ℤ × ℕ). Listed (l.0, l.0) (map range_of items))
        (λ (l : ℤ × ℕ). Listed (l.0, l.0) (map range_of (item ∷ items))) (single_lengths items)
        (λ l h. inr h) (single_lengths-Listed items) in
    elim (Option-cases (item_length item)) [
      | inl without ↦ rw (single_lengths, without) rest
      | inr (length, with_length) ↦ elim (Bool-cases (eqb_ℤ item.first item.last)) [
        | inl single ↦
            rw (single_lengths, with_length, single)
              (inl (ap (λ v. (item.first, v)) ((eqb_ℤ_iff item.first item.last).0 single)), rest)
        | inr wide ↦ rw (single_lengths, with_length, wide) rest
      ]
    ]

-- Where `lengths` gives lengths, `ranges` gives ranges, and each value that has a length is a range of its
-- own among them.
pub lengths-Listed :
    (self : Domain) (profile : Profile) (found : List (ℤ × ℕ))
    → lengths self profile ≡ ok found
    → (accepted : List (ℤ × ℤ)) × (ranges self profile ≡ ok accepted)
      × All (λ l. Listed (l.0, l.0) accepted) found
unfolding lengths ranges
lengths-Listed self profile found h = of_kind self.kind (items_of self profile) h
  where
    of_kind :
        (kind : DomainKind) (items : Option (List DomainItem))
        → lengths_of (ranges_of kind items) items ≡ ok found
        → (accepted : List (ℤ × ℤ)) × (ranges_of kind items ≡ ok accepted)
          × All (λ l. Listed (l.0, l.0) accepted) found
    of_kind flags items q = cc
    of_kind values none q = cc
    of_kind values (some items) q =
        let same : single_lengths items ≡ found = cc in
        (map range_of items, refl, rw (← same) (single_lengths-Listed items))

abbrev pub has_bit : ℕ → DomainItem → Bool
has_bit i item = bit i (as_u64 item.first) == 1

union_of-bit :
    (i start : ℕ) (items : List DomainItem)
    → (bit i (union_of start items) ≡ 1) ↔ ((bit i start ≡ 1) ⊎ (any (has_bit i) items ≡ true))
unfolding union_of any
union_of-bit i start [] = ground arith
union_of-bit i start (item ∷ items) = ground (
  arith,
  union_of-bit i (bit_or start (as_u64 item.first)) items,
  bit-bit_or i start (as_u64 item.first),
  bit-le i start,
  bit-le i (as_u64 item.first),
)

-- `bits` is the union of the flags that the profile accepts: a bit is in it exactly when some accepted
-- item has it.
pub bits-union :
    (self : Domain) (profile : Profile) (mask i : ℕ)
    → bits self profile ≡ ok mask
    → (items : List DomainItem) × (items_of self profile ≡ some items)
      × ((bit i mask ≡ 1) ↔ (any (has_bit i) items ≡ true))
unfolding bits
bits-union self profile mask i h = of_kind self.kind (items_of self profile) h
  where
    of_kind :
        (kind : DomainKind) (found : Option (List DomainItem))
        → bits_of kind found ≡ ok mask
        → (items : List DomainItem) × (found ≡ some items)
          × ((bit i mask ≡ 1) ↔ (any (has_bit i) items ≡ true))
    of_kind values found q = cc
    of_kind flags none q = cc
    of_kind flags (some items) q =
        let same : union_of 0 items ≡ mask = cc in
        (items, refl, rw (← same) (ground (arith, union_of-bit i 0 items, bit-zero i)))
