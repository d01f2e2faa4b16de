-- ===== src/Catalog/Domain/Items.antt =====
-- crates/stm32wb-catalog/src/domain.rs: the items that a stack profile accepts, and their ranges, lengths and
-- bits.
pub mod Orders
pub mod Sorting
pub mod Filtering
pub mod Results
use stm32wb_hci.Prelude.{
  ℕ, ◌-◌, ◌^◌, Bool, true, false, not, ◌&&◌, ◌||◌, Option, none, some, List, [], ◌∷◌, ◌++◌, map,
  ltb, ◌==◌, if◌then◌else◌,
}
use Prim.Native.Nat.{bit_or}
use stm32wb_hci.Prelude.Int.{ℤ, pos, negsuc, leb_ℤ, eqb_ℤ}
use stm32wb_hci.Prelude.Text.{Text}
use stm32wb_hci.Catalog.Target.{Profile}
use stm32wb_hci.Catalog.Domain.{DomainItem, DomainKind, values, flags, Domain, item_length}
use stm32wb_hci.Catalog.Domain.Labels.{
  Verdict, accepts, rejects, restricted, otherwise, unknown, verdict,
}

-- The derived order of items: by the fields, in order.
abbrev pub ltb_ℤ : ℤ → ℤ → Bool
ltb_ℤ a b = not (leb_ℤ b a)

unfoldable pub text_lt : Text → Text → Bool
text_lt [] [] = false
text_lt [] (d ∷ t) = true
text_lt (c ∷ s) [] = false
text_lt (c ∷ s) (d ∷ t) = let rest = text_lt s t in if c == d then rest else ltb c d

unfoldable pub digits_lt : Option ℕ → Option ℕ → Bool
digits_lt none none = false
digits_lt none (some b) = true
digits_lt (some a) none = false
digits_lt (some a) (some b) = ltb a b

abbrev pub same_digits : Option ℕ → Option ℕ → Bool
same_digits none none = true
same_digits none (some b) = false
same_digits (some a) none = false
same_digits (some a) (some b) = a == b

unfoldable pub label_lt : Option Text → Option Text → Bool
label_lt none none = false
label_lt none (some b) = true
label_lt (some a) none = false
label_lt (some a) (some b) = text_lt a b

unfoldable pub item_lt : DomainItem → DomainItem → Bool
item_lt a b =
    ltb_ℤ a.first b.first
    || (eqb_ℤ a.first b.first
        && (ltb_ℤ a.last b.last
            || (eqb_ℤ a.last b.last
                && (digits_lt a.hex_digits b.hex_digits
                    || (same_digits a.hex_digits b.hex_digits && label_lt a.label b.label)))))

-- `sort`: a stable sort, here by insertion.
unfoldable pub insert {ℓ} : {A : Type ℓ} → (A → A → Bool) → A → List A → List A
insert lt item [] = item ∷ []
insert lt item (other ∷ others) =
    let rest = insert lt item others in
    if lt other item then other ∷ rest else item ∷ other ∷ others

unfoldable pub sort {ℓ} : {A : Type ℓ} → (A → A → Bool) → List A → List A
unfolding insert
sort lt [] = []
sort lt (item ∷ items) = insert lt item (sort lt items)

-- The loop over the items: those accepted so far, those set aside, and whether a restricted one applies.
pub record Selection : Type 0 where
  pub items : List DomainItem
  pub otherwise : List DomainItem
  pub is_restricted : Bool

abbrev pub accept : DomainItem → Selection → Selection
accept item state = record state { items = state.items ++ (item ∷ []) }

abbrev pub set_aside : DomainItem → Selection → Selection
set_aside item state = record state { otherwise = state.otherwise ++ (item ∷ []) }

unfoldable pub select : Profile → List DomainItem → Selection → Option Selection
select profile [] state = some state
select profile (item ∷ items) state = elim (verdict profile item) [
  | accepts ↦ select profile items (accept item state)
  | rejects ↦ select profile items state
  | restricted ↦ select profile items (record (accept item state) { is_restricted = true })
  | otherwise ↦ select profile items (set_aside item state)
  | unknown ↦ none
]

abbrev pub selected : Selection → List DomainItem
selected state =
    if state.is_restricted then state.items else sort item_lt (state.items ++ state.otherwise)

abbrev pub finish : Option Selection → Option (List DomainItem)
finish none = none
finish (some state) = some (selected state)

abbrev pub initial : Selection
initial = record { items = []; otherwise = []; is_restricted = false }

-- `Domain::items`; `none` is the error of a label that the catalog cannot interpret.
unfoldable pub items_of : Domain → Profile → Option (List DomainItem)
items_of self profile = finish (select profile self.items initial)

pub data DomainError : Type 0 where
  is_flags is_values condition : DomainError

pub data Outcome {ℓ} (A : Type ℓ) : Type ℓ where
  ok : A → Outcome A
  err : DomainError → Outcome A

abbrev pub map_items {ℓ} :
    {A : Type ℓ} → (List DomainItem → A) → Option (List DomainItem) → Outcome A
map_items f none = err condition
map_items f (some items) = ok (f items)

abbrev pub range_of : DomainItem → ℤ × ℤ
range_of item = (item.first, item.last)

abbrev pub ranges_of : DomainKind → Option (List DomainItem) → Outcome (List (ℤ × ℤ))
ranges_of flags items = err is_flags
ranges_of values items = map_items (map range_of) items

unfoldable pub ranges : Domain → Profile → Outcome (List (ℤ × ℤ))
ranges self profile = ranges_of self.kind (items_of self profile)

unfoldable pub single_lengths : List DomainItem → List (ℤ × ℕ)
single_lengths [] = []
single_lengths (item ∷ items) =
    let others = single_lengths items in
    elim (item_length item) [
      | none ↦ others
      | some length ↦ if eqb_ℤ item.first item.last then (item.first, length) ∷ others else others
    ]

abbrev pub lengths_of : Outcome (List (ℤ × ℤ)) → Option (List DomainItem) → Outcome (List (ℤ × ℕ))
lengths_of (err e) items = err e
lengths_of (ok found) items = map_items single_lengths items

unfoldable pub lengths : Domain → Profile → Outcome (List (ℤ × ℕ))
lengths self profile = lengths_of (ranges self profile) (items_of self profile)

-- `as u64`
unfoldable pub as_u64 : ℤ → ℕ
as_u64 (pos n) = n
as_u64 (negsuc n) = 2 ^ 64 - 1 - n

unfoldable pub union_of : ℕ → List DomainItem → ℕ
union_of bits [] = bits
union_of bits (item ∷ items) = union_of (bit_or bits (as_u64 item.first)) items

abbrev pub bits_of : DomainKind → Option (List DomainItem) → Outcome ℕ
bits_of values items = err is_values
bits_of flags items = map_items (union_of 0) items

unfoldable pub bits : Domain → Profile → Outcome ℕ
bits self profile = bits_of self.kind (items_of self profile)
