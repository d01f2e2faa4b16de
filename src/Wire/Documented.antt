-- ===== src/Wire/Documented.antt =====
-- crates/stm32wb-hci/src/wire.rs: the compile-time checks of a wire type's values against those
-- that the catalog documents. Each `while` over a slice is a recursion on the list.
mod Scan
mod Declared
pub mod Values
pub mod Flags
mod Examples
use stm32wb_hci.Prelude.{
  ℕ, zero, suc, ◌+◌, ◌-◌, ◌/◌, ◌%◌, ◌^◌, Bool, true, false, ◌&&◌, ◌||◌, not, Option, none, some,
  List, [], ◌∷◌, length, is_none, is_some, if◌then◌else◌, ◌==◌, ltb,
}
use Prim.Native.Nat.{bit_and}
use stm32wb_hci.Prelude.Int.{ℤ, pos, negsuc, leb_ℤ, eqb_ℤ, suc_ℤ}
use stm32wb_hci.Wire.Base.{WireType}

abbrev pub Range : Type 0
Range = ℤ × ℤ

-- The specification of the two loops: whether some item holds `v`.
unfoldable pub within : ℤ → List Range → Bool
within v [] = false
within v ((from, to) ∷ items) = leb_ℤ from v && leb_ℤ v to || within v items

-- `match end { Some(end) if end >= to => Some(end), _ => Some(to) }`
abbrev pub farther : Option ℤ → ℤ → ℤ
farther none to = to
farther (some end) to = if leb_ℤ to end then end else to

-- The inner loop over items: the furthest end of those that hold `next`.
unfoldable pub furthest : ℤ → List Range → Option ℤ → Option ℤ
furthest next [] end = end
furthest next ((from, to) ∷ items) end =
    furthest next items (if leb_ℤ from next && leb_ℤ next to then some (farther end to) else end)

-- The outer loop. `none` means that the fuel ran out.
unfoldable pub covered_loop : ℕ → ℤ → ℤ → List Range → Option Bool
covered_loop zero next last documented = none
covered_loop (suc fuel) next last documented = elim (furthest next documented none) [
  | none ↦ some false
  | some end ↦ elim (leb_ℤ last end) [
    | true ↦ some true
    | false ↦ covered_loop fuel (suc_ℤ end) last documented
  ]
]

abbrev pub or_false : Option Bool → Bool
or_false none = false
or_false (some b) = b

-- Each round passes the end of an item for good, so that many rounds and one are enough.
unfoldable pub covered : ℤ → ℤ → List Range → Bool
covered first last documented =
    or_false (covered_loop (length documented + 1) first last documented)

-- The loop of `declared` over the values: `if values[item] == next { end = Some(next) }`.
unfoldable pub value_end : ℤ → List ℤ → Option ℤ → Option ℤ
value_end next [] end = end
value_end next (value ∷ values) end =
    value_end next values (if eqb_ℤ value next then some next else end)

abbrev pub or_empty {ℓ} : {A : Type ℓ} → Option (List A) → List A
or_empty none = []
or_empty (some items) = items

unfoldable pub declared_loop : ℕ → ℤ → ℤ → List ℤ → List Range → Option Bool
declared_loop zero next last values ranges = none
declared_loop (suc fuel) next last values ranges =
    elim (furthest next ranges (value_end next values none)) [
      | none ↦ some false
      | some end ↦ elim (leb_ℤ last end) [
        | true ↦ some true
        | false ↦ declared_loop fuel (suc_ℤ end) last values ranges
      ]
    ]

-- An absent list of values or ranges is scanned as an empty one.
unfoldable pub declared : ℤ → ℤ → Option (List ℤ) → Option (List Range) → Bool
declared first last values ranges = or_false (
    declared_loop (length (or_empty values) + length (or_empty ranges) + 1) first last
      (or_empty values) (or_empty ranges))

all_values_covered : List ℤ → List Range → Bool
all_values_covered [] documented = true
all_values_covered (value ∷ values) documented =
    covered value value documented && all_values_covered values documented

all_ranges_covered : List Range → List Range → Bool
all_ranges_covered [] documented = true
all_ranges_covered ((first, last) ∷ ranges) documented =
    covered first last documented && all_ranges_covered ranges documented

unfoldable pub values_documented : WireType → List Range → Bool
unfolding all_values_covered all_ranges_covered
values_documented t documented =
    if is_some t.bits
    then false
    else all_values_covered (or_empty t.values) documented
      && all_ranges_covered (or_empty t.ranges) documented

all_declared : WireType → List Range → Bool
all_declared t [] = true
all_declared t ((first, last) ∷ documented) =
    declared first last t.values t.ranges && all_declared t documented

unfoldable pub documented_values_declared : WireType → List Range → Bool
unfolding all_declared
documented_values_declared t documented =
    if is_some t.bits
    then false
    else if is_none t.values && is_none t.ranges
    then true
    else all_declared t documented

-- `while item < set.len() && set[item] != value`, and whether it stopped before the end.
unfoldable pub contains : List ℤ → ℤ → Bool
contains [] value = false
contains (item ∷ set) value = if eqb_ℤ item value then true else contains set value

unfoldable pub contains_all : List ℤ → List ℤ → Bool
contains_all set [] = true
contains_all set (item ∷ items) = if contains set item then contains_all set items else false

unfoldable pub values_exactly : WireType → List ℤ → Bool
values_exactly t documented = elim t.values [
  | none ↦ false
  | some values ↦ contains_all values documented && contains_all documented values
]

abbrev pub unit_matches : Option ℕ → Option ℕ → Bool
unit_matches (some unit) (some documented) = unit == documented
unit_matches none none = true
unit_matches _ _ = false

unfoldable pub unit_documented : WireType → Option ℕ → Bool
unit_documented t documented = unit_matches t.unit_us documented

-- The first documented pair of that value, and whether it gives the length.
unfoldable pub length_matches : ℤ → ℕ → List (ℤ × ℕ) → Bool
length_matches value length [] = false
length_matches value length ((item, documented) ∷ items) =
    if eqb_ℤ item value then documented == length else length_matches value length items

unfoldable pub all_lengths_match : List (ℤ × ℕ) → List (ℤ × ℕ) → Bool
all_lengths_match [] documented = true
all_lengths_match ((value, length) ∷ lengths) documented =
    if length_matches value length documented then all_lengths_match lengths documented else false

unfoldable pub lengths_documented : WireType → List (ℤ × ℕ) → Bool
lengths_documented t documented = elim t.lengths [
  | none ↦ true
  | some lengths ↦ all_lengths_match lengths documented
]

-- `!x` of a u64.
abbrev pub not_64 : ℕ → ℕ
not_64 x = 2 ^ 64 - 1 - x

-- `value as u64`, of a value that is not negative, and `value < 0`.
unfoldable pub flag_value_documented : ℤ → ℕ → Bool
flag_value_documented (pos n) documented = bit_and n (not_64 documented) == 0
flag_value_documented (negsuc n) documented = false

unfoldable pub all_flag_values : List ℤ → ℕ → Bool
all_flag_values [] documented = true
all_flag_values (value ∷ values) documented =
    if flag_value_documented value documented then all_flag_values values documented else false

unfoldable pub flags_documented : WireType → ℕ → Bool
flags_documented t documented =
    if is_some t.ranges || is_some t.lengths then false else elim t.bits [
      | some bits ↦ bit_and bits (not_64 documented) == 0
      | none ↦ elim t.values [ none ↦ true | some values ↦ all_flag_values values documented ]
    ]

unfoldable pub is_opaque : WireType → Bool
is_opaque t =
    is_none t.values && is_none t.bits && is_none t.ranges && is_none t.unit_us && is_none t.lengths

unfoldable pub decodes_any : WireType → Bool
decodes_any t = t.fallback || is_none t.values && is_none t.bits && is_none t.ranges

-- `combination as i64`
abbrev pub as_i64 : ℕ → ℤ
as_i64 x = if ltb x (2 ^ 63) then pos x else negsuc (2 ^ 64 - 1 - x)

-- `count_ones` of an integer of `n` bits.
unfoldable pub count_ones : ℕ → ℕ → ℕ
count_ones zero x = 0
count_ones (suc n) x = x % 2 + count_ones n (x / 2)

-- The loop over the combinations of the documented flags, from all of them down to none of them.
-- `none` means that the fuel ran out.
unfoldable pub combinations_loop : ℕ → ℕ → List ℤ → ℕ → Option Bool
combinations_loop zero documented values combination = none
combinations_loop (suc fuel) documented values combination =
    elim (contains values (as_i64 combination)) [
      | false ↦ some false
      | true ↦ elim (combination == 0) [
        | true ↦ some true
        | false ↦ combinations_loop fuel documented values (bit_and (combination - 1) documented)
      ]
    ]

-- Each round takes a lower combination, so that `documented + 1` rounds are enough.
unfoldable pub documented_flags_declared : WireType → ℕ → Bool
documented_flags_declared t documented = if is_some t.ranges then false else elim t.bits [
  | some bits ↦ bit_and documented (not_64 bits) == 0
  | none ↦ elim t.values [
    | none ↦ true
    | some values ↦ elim (ltb 16 (count_ones 64 documented)) [
      | true ↦ false
      | false ↦ or_false (combinations_loop (documented + 1) documented values documented)
    ]
  ]
]
