-- ===== src/Wire/Documented/Flags.antt =====
-- What the checks on flags answer, as statements on every set of bits.
use Prim.Native.Nat.{bit_and}
use stm32wb_hci.Prelude.{
  ℕ, zero, suc, ◌+◌, ◌-◌, ◌^◌, ◌≤◌, ◌<◌, ◌≡◌, ◌≢◌, ◌↔◌, inl, inr, refl, Bool, true, false, Option,
  none, some, List, [], ◌∷◌, arith, Bool-cases, Option-cases, ◌==◌, ltb, ==_iff,
}
use native.Mathlib.Decide.{dec_lt}
use stm32wb_hci.Prelude.Int.{ℤ, pos, negsuc, pos_part, neg_part, ◌≤ℤ◌, eqb_ℤ_iff}
use stm32wb_hci.Prelude.Bits.{◌⊑◌, and_not_iff, bit_and-le, ⊑-bit_and, subset_below, ⊑-le}
use stm32wb_hci.Wire.Base.{WireType}
use stm32wb_hci.Wire.Documented.{
  contains, not_64, flag_value_documented, all_flag_values, flags_documented, as_i64, count_ones,
  combinations_loop, documented_flags_declared,
}

test_iff : (x m : ℕ) → x < 2 ^ 64 → m < 2 ^ 64 → ((bit_and x (not_64 m) == 0) ≡ true) ↔ (x ⊑ m)
test_iff x m hx hm =
    let (to, from) = and_not_iff 64 x m hx hm in
    (λ h. to ((==_iff _ 0).0 h), λ h. (==_iff _ 0).1 (from h))

-- For a type of flags, `flags_documented` answers whether every bit it may set is documented.
pub flags_documented_bits_iff :
    (t : WireType) (bits documented : ℕ)
    → t.bits ≡ some bits
    → t.ranges ≡ none
    → t.lengths ≡ none
    → bits < 2 ^ 64
    → documented < 2 ^ 64
    → (flags_documented t documented ≡ true) ↔ (bits ⊑ documented)
unfolding flags_documented
flags_documented_bits_iff t bits documented b r l hb hd =
    simp (b, r, l) (test_iff bits documented hb hd)

module _ (documented : ℕ) (values : List ℤ) where
  abbrev listed : ℕ → Bool
  listed x = contains values (as_i64 x)

  combinations_loop_total :
      (fuel combination : ℕ)
      → combination < fuel
      → combinations_loop fuel documented values combination ≢ none
  unfolding combinations_loop
  combinations_loop_total zero combination h = elim h [ ]
  combinations_loop_total (suc fuel) combination h = elim (Bool-cases (listed combination)) [
    | inl here ↦
        rw (here, combinations_loop)
          (ground (
            arith,
            bit_and-le (combination - 1) documented,
            combinations_loop_total fuel (bit_and (combination - 1) documented),
          ))
    | inr gone ↦ rw (gone, combinations_loop) (λ e. cc)
  ]

  -- One round that finds its combination listed and is not the last.
  next_round :
      (fuel combination : ℕ) (b : Bool)
      → combinations_loop (suc fuel) documented values combination ≡ some b
      → listed combination ≡ true
      → 0 < combination
      → combinations_loop fuel documented values (bit_and (combination - 1) documented) ≡ some b
  unfolding combinations_loop
  next_round fuel combination b h here more =
      let test : (combination == 0) ≡ false = ground arith in
      rw (here, test, combinations_loop) at h

  first_round :
      (fuel combination : ℕ)
      → combinations_loop (suc fuel) documented values combination ≡ some true
      → listed combination ≡ true
  unfolding combinations_loop
  first_round fuel combination h = elim (Bool-cases (listed combination)) [
    | inl here ↦ here
    | inr gone ↦ let bad : some false ≡ some true = rw (gone, combinations_loop) at h in cc
  ]

  last_round :
      (fuel combination : ℕ)
      → combinations_loop (suc fuel) documented values combination ≡ some false
      → listed combination ≡ true
      → 0 < combination
  unfolding combinations_loop
  last_round fuel combination h here = elim (dec_lt 0 combination) [
    | yes more ↦ more
    | no done ↦
        let test : (combination == 0) ≡ true = ground arith in
        let bad : some true ≡ some false = rw (here, test, combinations_loop) at h in cc
  ]

  combinations_loop_sound :
      (fuel combination x : ℕ)
      → combination ⊑ documented
      → combinations_loop fuel documented values combination ≡ some true
      → x ⊑ documented
      → x ≤ combination
      → listed x ≡ true
  unfolding combinations_loop
  combinations_loop_sound zero combination x sc h sx le = cc
  combinations_loop_sound (suc fuel) combination x sc h sx le =
      let here = first_round fuel combination h in
      elim (dec_lt x combination) [
        | yes lt ↦
            combinations_loop_sound fuel (bit_and (combination - 1) documented) x
              (⊑-bit_and (combination - 1) documented)
              (next_round fuel combination true h here (omega arith)) sx
              (subset_below combination documented x sc sx lt)
        | no ge ↦ let e : x ≡ combination = omega arith in rw e here
      ]

  combinations_loop_complete :
      (fuel combination : ℕ)
      → combination ⊑ documented
      → combinations_loop fuel documented values combination ≡ some false
      → ((x : ℕ) → x ⊑ documented → listed x ≡ true)
      → ⊥
  unfolding combinations_loop
  combinations_loop_complete zero combination sc h all = cc
  combinations_loop_complete (suc fuel) combination sc h all =
      let here = all combination sc in
      combinations_loop_complete fuel (bit_and (combination - 1) documented)
        (⊑-bit_and (combination - 1) documented)
        (next_round fuel combination false h here (last_round fuel combination h here)) all

module _ (t : WireType) (values : List ℤ) (documented : ℕ) where
  abbrev flags_loop : Option Bool
  flags_loop = combinations_loop (documented + 1) documented values documented

  flags_loop_total : (b : Bool) × (flags_loop ≡ some b)
  flags_loop_total = elim (Option-cases flags_loop) [
    | inl out ↦
        absurd
          (combinations_loop_total documented values (documented + 1) documented (omega arith) out)
    | inr r ↦ r
  ]

  -- For a type of values and at most 16 documented flags, `documented_flags_declared` answers
  -- whether each combination of the documented flags is one of its values.
  pub documented_flags_declared_iff :
      t.ranges ≡ none
      → t.bits ≡ none
      → t.values ≡ some values
      → count_ones 64 documented ≤ 16
      → (documented_flags_declared t documented ≡ true)
        ↔ ((x : ℕ) → x ⊑ documented → contains values (as_i64 x) ≡ true)
  unfolding documented_flags_declared
  documented_flags_declared_iff r b v few =
      let (answer, e) = flags_loop_total in
      let test : ltb 16 (count_ones 64 documented) ≡ false = ground arith in
      simp (r, b, v, test, e)
        (
          λ h x sx.
              combinations_loop_sound documented values (documented + 1) documented x
                (λ i. omega arith) (rw h at e) sx (⊑-le x documented sx),
          λ all. elim (Bool-cases answer) [
            | inl good ↦ good
            | inr bad ↦ absurd (
                combinations_loop_complete documented values (documented + 1) documented
                  (λ i. omega arith) (rw bad at e) all)
          ],
        )

all_flag_values_iff :
    (values : List ℤ) (documented : ℕ)
    → (all_flag_values values documented ≡ true)
      ↔ ((v : ℤ) → contains values v ≡ true → flag_value_documented v documented ≡ true)
unfolding all_flag_values contains
all_flag_values_iff [] documented = (λ h v m. cc, λ all. refl)
all_flag_values_iff (value ∷ values) documented = (
  λ h v m.
      ground (arith, eqb_ℤ_iff value v, (all_flag_values_iff values documented).0 (ground arith) v),
  λ all. ground (
    arith,
    all value,
    eqb_ℤ_iff value value,
    (all_flag_values_iff values documented).1 (λ v m. all v (ground arith)),
  ),
)

-- A value that is not negative and sets documented bits only.
abbrev pub IsDocumentedFlags : ℕ → ℤ → Type 0
IsDocumentedFlags documented v = (n : ℕ) × (v ≡ pos n) × (n ⊑ documented)

flag_value_documented_iff :
    (v : ℤ) (documented : ℕ)
    → v ≤ℤ pos (2 ^ 63 - 1)
    → documented < 2 ^ 64
    → (flag_value_documented v documented ≡ true) ↔ IsDocumentedFlags documented v
unfolding flag_value_documented pos_part neg_part
flag_value_documented_iff (pos n) documented hv hd =
    let (to, from) = test_iff n documented (omega arith) hd in
    (λ h. (n, refl, to h), λ (m, e, s). from (let same : n ≡ m = ground arith in rw same s))
flag_value_documented_iff (negsuc n) documented hv hd = (λ h. cc, λ (m, e, s). cc)

-- For a type of i64 values, `flags_documented` answers whether each of them is non-negative and
-- sets documented bits only.
pub flags_documented_values_iff :
    (t : WireType) (values : List ℤ) (documented : ℕ)
    → t.bits ≡ none
    → t.ranges ≡ none
    → t.lengths ≡ none
    → t.values ≡ some values
    → ((v : ℤ) → contains values v ≡ true → v ≤ℤ pos (2 ^ 63 - 1))
    → documented < 2 ^ 64
    → (flags_documented t documented ≡ true)
      ↔ ((v : ℤ) → contains values v ≡ true → IsDocumentedFlags documented v)
unfolding flags_documented
flags_documented_values_iff t values documented b r l vs fits hd =
    let (to, from) = all_flag_values_iff values documented in
    simp (b, r, l, vs)
      (
        λ h v m. (flag_value_documented_iff v documented (fits v m) hd).0 (to h v m),
        λ all. from (λ v m. (flag_value_documented_iff v documented (fits v m) hd).1 (all v m)),
      )
