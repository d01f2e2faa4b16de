-- ===== src/Wire/Types/Fallback.antt =====
-- `OrUnknown` keeps every integer that the binary may send.
use stm32wb_hci.Prelude.{ℕ, ◌^◌, ◌<◌, ◌≡◌, List, ◌++◌, length, arith, Option-cases, inl, inr}
use stm32wb_hci.Prelude.Bytes.{to_le_bytes}
use stm32wb_hci.Wire.Decoding.{ok, err, invalid_size, Decoder, IsLittleEndian}
use stm32wb_hci.Wire.Types.{
  WireValue, IsLawful, OrUnknown, known_value, or_unknown_raw, or_unknown, decode_or_unknown,
}

module _ {T : Type 0} (Valid : T → Type 0) (w : WireValue T) (lawful : IsLawful Valid w) (width : ℕ)
    (decode_raw : Decoder ℕ) (le : IsLittleEndian width decode_raw) where
  or_unknown_keeps :
      (raw : ℕ)
      → (or_unknown_raw w (or_unknown w raw) ≡ raw)
        × (known_value (or_unknown w raw) ≡ w.from_raw raw)
  unfolding or_unknown_raw known_value
  or_unknown_keeps raw = elim (Option-cases (w.from_raw raw)) [
    | inl e ↦ (ground (arith, e), ground (arith, e))
    | inr (value, e) ↦ (ground (arith, e, lawful.keeps raw value e), ground (arith, e))
  ]

  -- On the bytes of any integer that fits, decoding succeeds, leaves what follows them, re-encodes to
  -- the same integer, and knows the value exactly if the type stands for it.
  pub decode_or_unknown_any :
      (raw : ℕ) (rest : List ℕ)
      → raw < 256 ^ width
      → (value : OrUnknown T) × (decode_or_unknown w decode_raw (to_le_bytes width raw ++ rest)
          ≡ ok (value, rest))
        × (or_unknown_raw w value ≡ raw)
        × (known_value value ≡ w.from_raw raw)
  unfolding decode_or_unknown
  decode_or_unknown_any raw rest h =
      let (kept, seen) = or_unknown_keeps raw in
      (or_unknown w raw, rw (le.reads raw rest h), kept, seen)

  -- It fails only where the integer is cut short.
  pub decode_or_unknown_short :
      (input : List ℕ)
      → length input < width
      → decode_or_unknown w decode_raw input ≡ err invalid_size
  unfolding decode_or_unknown
  decode_or_unknown_short input h = rw (le.refuses input h)
