-- ===== src/Wire/Documented/Declared.antt =====
-- `declared` scans values and ranges as `covered` scans ranges, a value being a range of one.
use stm32wb_hci.Prelude.{
  ℕ, zero, suc, ◌≡◌, refl, ap, ◌||◌, Option, none, some, List, [], ◌∷◌, ◌++◌, length, length-append,
  arith, Option-cases, inl, inr,
}
use stm32wb_hci.Prelude.Int.{ℤ, suc_ℤ, eqb_ℤ_iff}
use stm32wb_hci.Wire.Documented.{
  Range, within, furthest, covered_loop, covered, value_end, declared_loop, declared, or_empty,
  contains,
}

abbrev pub singles : List ℤ → List Range
singles [] = []
singles (value ∷ values) = (value, value) ∷ singles values

length-singles : (values : List ℤ) → length (singles values) ≡ length values
length-singles [] = refl
length-singles (value ∷ values) = ap suc (length-singles values)

value_end-found :
    (next : ℤ) (values : List ℤ)
    → value_end next values (some next) ≡ furthest next (singles values) (some next)
unfolding value_end furthest
value_end-found next [] = refl
value_end-found next (value ∷ values) =
    ground (arith, eqb_ℤ_iff value next, value_end-found next values)

value_end-furthest :
    (next : ℤ) (values : List ℤ) → value_end next values none ≡ furthest next (singles values) none
unfolding value_end furthest
value_end-furthest next [] = refl
value_end-furthest next (value ∷ values) =
    ground
      (arith, eqb_ℤ_iff value next, value_end-found next values, value_end-furthest next values)

furthest-append :
    (next : ℤ) (xs ys : List Range) (acc : Option ℤ)
    → furthest next (xs ++ ys) acc ≡ furthest next ys (furthest next xs acc)
unfolding furthest
furthest-append next [] ys acc = refl
furthest-append next ((from, to) ∷ xs) ys acc = furthest-append next xs ys _

module _ (last : ℤ) (values : List ℤ) (ranges : List Range) where
  declared_loop-covered_loop :
      (fuel : ℕ) (next : ℤ)
      → declared_loop fuel next last values ranges
        ≡ covered_loop fuel next last (singles values ++ ranges)
  unfolding declared_loop covered_loop
  declared_loop-covered_loop zero next = refl
  declared_loop-covered_loop (suc fuel) next =
      let scan : furthest next ranges (value_end next values none)
          ≡ furthest next (singles values ++ ranges) none =
        rw (furthest-append, value_end-furthest) in
      elim (Option-cases (furthest next (singles values ++ ranges) none)) [
        | inl q ↦ rw (scan, q, covered_loop, declared_loop)
        | inr (e, q) ↦ ground (arith, scan, q, declared_loop-covered_loop fuel (suc_ℤ e))
      ]

pub declared-covered :
    (first last : ℤ) (values : Option (List ℤ)) (ranges : Option (List Range))
    → declared first last values ranges
      ≡ covered first last (singles (or_empty values) ++ or_empty ranges)
unfolding declared covered
declared-covered first last values ranges =
    rw (declared_loop-covered_loop, length-append, length-singles)

pub within-append :
    (v : ℤ) (xs ys : List Range) → within v (xs ++ ys) ≡ (within v xs || within v ys)
unfolding within
within-append v [] ys = refl
within-append v ((from, to) ∷ xs) ys = ground (arith, within-append v xs ys)

pub within-singles : (v : ℤ) (values : List ℤ) → within v (singles values) ≡ contains values v
unfolding within contains
within-singles v [] = refl
within-singles v (value ∷ values) = ground (arith, eqb_ℤ_iff value v, within-singles v values)
