-- ===== src/Wire/Types/Ranges.antt =====
-- The ranges that `wire_range!` declares, and the encoding that `wire_duration!` shares.
use stm32wb_hci.Prelude.{
  ℕ, ◌^◌, ◌≤◌, ◌<◌, ◌≡◌, ◌⊎◌, false, ◌&&◌, some, List, [], ◌∷◌, ◌++◌, arith, Bool-cases, inl, inr,
  leb, ◌==◌, sym,
}
use stm32wb_hci.Prelude.Bytes.{to_le_bytes}
use stm32wb_hci.Wire.Decoding.{Result, ok, err, invalid_value, Decoder, IsLittleEndian}
use stm32wb_hci.Wire.Types.{IsLawful, In, ok?, new, range_try_from, range_value, range_decode}

module _ (low high : ℕ) where
  -- What a value of the type wraps.
  abbrev pub IsRangeValue : List ℕ → ℕ → Type 0
  IsRangeValue specials value = In value specials ⊎ ((low ≤ value) × (value ≤ high))

  range_try_from-ok :
      (specials : List ℕ) (raw value : ℕ)
      → range_try_from low high specials raw ≡ ok value
      → (value ≡ raw) × IsRangeValue specials value
  unfolding range_try_from
  range_try_from-ok [] raw value h = elim (Bool-cases (leb low raw && leb raw high)) [
    | inl inside ↦
        let same : raw ≡ value = cc (rw inside at h) in
        (sym same, inr (ground (arith, inside, same)))
    | inr outside ↦ let bad : err invalid_value ≡ ok value = rw outside at h in cc
  ]
  range_try_from-ok (special ∷ specials) raw value h = elim (Bool-cases (raw == special)) [
    | inl here ↦
        let same : special ≡ value = cc (rw here at h) in
        (ground (arith, here, same), inl (inl (sym same)))
    | inr there ↦ let (e, m) = range_try_from-ok specials raw value (rw there at h) in (e, later m)
  ]
    where
      later :
          In value specials ⊎ ((low ≤ value) × (value ≤ high))
          → IsRangeValue (special ∷ specials) value
      later (inl m) = inl (inr m)
      later (inr r) = inr r

  range_try_from-valid :
      (specials : List ℕ) (value : ℕ)
      → IsRangeValue specials value
      → range_try_from low high specials value ≡ ok value
  unfolding range_try_from
  range_try_from-valid [] value (inl m) = elim m [ ]
  range_try_from-valid [] value (inr r) = ground arith
  range_try_from-valid (special ∷ specials) value v = elim (Bool-cases (value == special)) [
    | inl here ↦ rw here (ground (arith, here))
    | inr there ↦ rw there (range_try_from-valid specials value (earlier v there))
  ]
    where
      earlier :
          IsRangeValue (special ∷ specials) value
          → (value == special) ≡ false
          → IsRangeValue specials value
      earlier (inl (inl e)) no_match = absurd (ground (arith, e, no_match))
      earlier (inl (inr m)) no_match = inl m
      earlier (inr r) no_match = inr r

  ok?-some : {A : Type 0} (r : Result A) (a : A) → ok? r ≡ some a → r ≡ ok a
  ok?-some (ok b) a h = cc
  ok?-some (err e) a h = cc

  -- A range type stands for exactly the integers from its lowest to its highest value and its special
  -- values, each standing for itself.
  pub range_value-IsLawful :
      (specials : List ℕ) → IsLawful (IsRangeValue specials) (range_value low high specials)
  range_value-IsLawful specials = record {
    reads = λ value v. rw (range_try_from-valid specials value v);
    keeps = λ raw value e. (range_try_from-ok specials raw value (ok?-some _ value e)).0;
    valid = λ raw value e. (range_try_from-ok specials raw value (ok?-some _ value e)).1;
  }

  -- What `new` gives is a value that decoding gives back from its bytes, with what follows them.
  pub range_decode-new :
      (specials : List ℕ) (width : ℕ) (decode_raw : Decoder ℕ)
      → IsLittleEndian width decode_raw
      → (value made : ℕ) (rest : List ℕ) → high < 256 ^ width
      → new low high value ≡ some made
      → range_decode low high specials decode_raw (to_le_bytes width made ++ rest) ≡ ok (made, rest)
  unfolding range_decode new
  range_decode-new specials width decode_raw le value made rest fits h =
      let r : (low ≤ made) × (made ≤ high) = ground arith in
      rw (le.reads made rest (omega arith), range_try_from-valid specials made (inr r))
