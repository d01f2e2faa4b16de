-- ===== src/Wire/Documented/Examples.antt =====
-- Runs of the checks on small types, and their theorems there.
use stm32wb_hci.Prelude.{ℕ, ◌^◌, ◌-◌, ◌≡◌, ◌↔◌, refl, true, false, some, List, [], ◌∷◌, arith}
use stm32wb_hci.Prelude.Int.{ℤ, pos, negsuc, pos_part, neg_part, suc_ℤ, ◌≤ℤ◌}
use stm32wb_hci.Prelude.Bits.{◌⊑◌}
use stm32wb_hci.Wire.Base.{WireType, plain}
use stm32wb_hci.Wire.Documented.{
  Range, within, furthest, covered_loop, covered, contains, values_documented,
  documented_values_declared, declared, declared_loop, value_end, flags_documented,
  documented_flags_declared, combinations_loop, count_ones, as_i64,
}
use stm32wb_hci.Wire.Documented.Values.{
  encodes, values_documented_iff, documented_values_declared_iff,
}
use stm32wb_hci.Wire.Documented.Flags.{documented_flags_declared_iff}

-- Two items that join, the first listed last.
abbrev joined : List Range
joined = (pos 5, pos 9) ∷ (negsuc 2, pos 4) ∷ []

covered-joined : covered (negsuc 1) (pos 9) joined ≡ true
unfolding covered covered_loop furthest pos_part neg_part suc_ℤ
covered-joined = refl

covered_gap : covered (pos 0) (pos 10) joined ≡ false
unfolding covered covered_loop furthest pos_part neg_part suc_ℤ
covered_gap = refl

abbrev scan_type : WireType
scan_type = record (plain 1) { values = some (pos 0 ∷ pos 1 ∷ []) }

abbrev duration : WireType
duration = record (plain 2) { ranges = some ((pos 4, pos 9) ∷ (pos 0, pos 0) ∷ []) }

abbrev channels : WireType
channels = record (plain 1) { bits = some 7 }

duration_documented : values_documented duration joined ≡ true
unfolding values_documented covered covered_loop furthest pos_part neg_part suc_ℤ
duration_documented = refl

duration_misses : documented_values_declared duration joined ≡ false
unfolding documented_values_declared declared declared_loop value_end furthest pos_part neg_part
    suc_ℤ
duration_misses = refl

masks : flags_documented channels 15 ≡ true
unfolding flags_documented
masks = refl

combinations_missed : documented_flags_declared scan_type 3 ≡ false
unfolding documented_flags_declared combinations_loop contains count_ones pos_part neg_part
combinations_missed = refl

values_documented_iff_example :
    (values_documented duration joined ≡ true)
    ↔ ((v : ℤ) → encodes duration v ≡ true → within v joined ≡ true)
unfolding pos_part neg_part
values_documented_iff_example = values_documented_iff duration joined refl (omega arith)

documented_values_declared_iff_example :
    (documented_values_declared duration joined ≡ true)
    ↔ ((v : ℤ) → within v joined ≡ true → encodes duration v ≡ true)
unfolding pos_part neg_part
documented_values_declared_iff_example =
    documented_values_declared_iff duration joined refl refl (omega arith)

scan_type_small : (v : ℤ) → contains (pos 0 ∷ pos 1 ∷ []) v ≡ true → v ≤ℤ pos (2 ^ 63 - 1)
unfolding contains pos_part neg_part
scan_type_small v h = ground arith

documented_flags_declared_iff_example :
    (documented_flags_declared scan_type 3 ≡ true)
    ↔ ((x : ℕ) → x ⊑ 3 → contains (pos 0 ∷ pos 1 ∷ []) (as_i64 x) ≡ true)
unfolding count_ones
documented_flags_declared_iff_example =
    documented_flags_declared_iff scan_type (pos 0 ∷ pos 1 ∷ []) 3 refl refl refl (omega arith)
