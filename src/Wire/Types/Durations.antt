-- ===== src/Wire/Types/Durations.antt =====
-- The durations that `wire_duration!` declares: conversions between units and times.
use stm32wb_hci.Prelude.{
  ℕ, ◌*◌, ◌/◌, ◌%◌, ◌^◌, ◌≤◌, ◌<◌, ◌≡◌, ◌↔◌, refl, ap, some, arith, ltb→lt, Bool-cases, inl, inr,
  ltb,
}
use native.Mathlib.Nat.{div-add-mod, mod-eq_of_lt, mul-mod_left, mul-div_cancel}
use native.Mathlib.Decide.{dec_le}
use stm32wb_hci.Wire.Types.{from_micros, from_millis, as_micros}

module _ (bits unit low high : ℕ) (positive : 0 < unit) (fits : high < 2 ^ bits) where
  multiple : (n : ℕ) → (n * unit % unit ≡ 0) × (n * unit / unit ≡ n)
  multiple n = (mul-mod_left n unit, mul-div_cancel n positive)

  kept : (count : ℕ) → count ≤ high → count % 2 ^ bits ≡ count
  kept count h = mod-eq_of_lt (omega arith)

  from_micros-parts :
      (micros units : ℕ)
      → (from_micros bits unit low high micros ≡ some units)
        ↔ ((micros % unit ≡ 0) × (micros / unit ≡ units) × (low ≤ units) × (units ≤ high))
  unfolding from_micros
  from_micros-parts micros units = elim (dec_le (micros / unit) high) [
    | yes inside ↦ let same = kept (micros / unit) inside in rw same (ground arith)
    | no outside ↦ ground arith
  ]

  -- `from_micros` gives a number of units exactly if the time is that many units and the number is in
  -- range: the cast to the integer's width loses nothing.
  pub from_micros_iff :
      (micros units : ℕ)
      → (from_micros bits unit low high micros ≡ some units)
        ↔ ((micros ≡ units * unit) × (low ≤ units) × (units ≤ high))
  from_micros_iff micros units =
      let (to, from) = from_micros-parts micros units in
      (
        λ h.
            let (whole, count, lo, hi) = to h in
            (omega (arith, div-add-mod micros unit, whole, ap (λ (n : ℕ). n * unit) count), lo, hi),
        λ (e, lo, hi). let (whole, count) = multiple units in from (rw e whole, rw e count, lo, hi),
      )

  -- `from_millis` is `from_micros` of a thousand times as many, while that fits in a u64.
  pub from_millis_iff :
      (millis units : ℕ)
      → (from_millis bits unit low high millis ≡ some units) ↔ (
          (millis * 1000 ≡ units * unit)
          × (millis * 1000 < 2 ^ 64)
          × (low ≤ units)
          × (units ≤ high))
  unfolding from_millis
  from_millis_iff millis units =
      let (to, from) = from_micros_iff (millis * 1000) units in
      elim (Bool-cases (ltb (millis * 1000) (2 ^ 64))) [
        | inl small ↦ rw small (
          λ h. let (e, lo, hi) = to h in (e, ltb→lt _ _ small, lo, hi),
          λ (e, _, lo, hi). from (e, lo, hi),
        )
        | inr large ↦ rw large (λ h. cc, λ (e, lt, lo, hi). absurd (ground (arith, lt, large)))
      ]

  -- A number of units in range has a time, which fits in a u64 and gives the number back.
  pub from_micros-as_micros :
      (units : ℕ)
      → unit < 2 ^ 32
      → high < 2 ^ 32
      → low ≤ units
      → units ≤ high
      → (as_micros bits unit low high units ≡ some (units * unit))
        × (units * unit < 2 ^ 64)
        × (from_micros bits unit low high (units * unit) ≡ some units)
  unfolding as_micros
  from_micros-as_micros units hu hh lo hi =
      (ground arith, grind arith, (from_micros_iff (units * unit) units).1 (refl, lo, hi))
