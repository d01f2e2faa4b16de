-- ===== src/Wire/Selectors/Bearers.antt =====
-- `AttBearer` of crates/stm32wb-hci/src/wire.rs names a connection or an enhanced bearer, never both.
use stm32wb_hci.Prelude.{
  ℕ, ◌+◌, ◌-◌, ◌%◌, ◌^◌, ◌≤◌, ◌<◌, ◌≡◌, ◌⊎◌, inl, inr, refl, ◌∙◌, ap, le→leb, Option, none, some,
  List, ◌++◌, arith,
}
use native.Mathlib.Decide.{dec_le}
use stm32wb_hci.Prelude.Bytes.{to_le_bytes}
use stm32wb_hci.Wire.Decoding.{invalid_value, ok, err, ◌>>=◌, Decoder, IsLittleEndian}
use stm32wb_hci.Wire.Selectors.{
  AttBearer, from_raw, enhanced, connection, channel_index, bearer_of, decode_bearer, write_bearer,
}

module _ (last_enhanced : ℕ) where
  -- The value is neither a connection handle nor that of an enhanced bearer of the release.
  abbrev pub IsNameless : ℕ → Type 0
  IsNameless raw = (0x0eff < raw) × ((raw < 0xea00) ⊎ (last_enhanced < raw))

  -- It is one of them.
  abbrev pub IsNamed : ℕ → Type 0
  IsNamed raw = (raw ≤ 0x0eff) ⊎ ((0xea00 ≤ raw) × (raw ≤ last_enhanced))

module _ (last_enhanced : ℕ) (in_range : last_enhanced ≤ 0xeaff) where
  from_raw-cases :
      (raw : ℕ)
      → ((raw ≤ 0x0eff) × (from_raw last_enhanced raw ≡ some (record { raw = raw })))
        ⊎ (((0xea00 ≤ raw)
              × (raw ≤ last_enhanced)
              × (from_raw last_enhanced raw ≡ some (record { raw = raw })))
            ⊎ (IsNameless last_enhanced raw × (from_raw last_enhanced raw ≡ none)))
  unfolding from_raw
  from_raw-cases raw = elim (dec_le raw 0x0eff) [
    | yes low ↦ inl (low, ground (arith, low))
    | no high ↦ elim (dec_le 0xea00 raw) [
      | no between ↦
          inr (
            inr
              ((omega (arith, high), inl (omega (arith, between))), ground (arith, high, between)))
      | yes above ↦ elim (dec_le raw last_enhanced) [
        | yes within ↦ inr (inl (above, within, ground (arith, above, within)))
        | no past ↦
            inr (inr ((omega (arith, high), inr (omega (arith, past))), ground (arith, high, past)))
      ]
    ]
  ]

  of_connection :
      (raw : ℕ)
      → raw ≤ 0x0eff
      → (connection last_enhanced (record { raw = raw }) ≡ some raw)
        × (channel_index last_enhanced (record { raw = raw }) ≡ none)
  unfolding connection channel_index
  of_connection raw low = (ground (arith, low), ground (arith, low))

  of_channel :
      (raw : ℕ)
      → 0xea00 ≤ raw
      → raw ≤ last_enhanced
      → (connection last_enhanced (record { raw = raw }) ≡ none)
        × (channel_index last_enhanced (record { raw = raw }) ≡ some (raw - 0xea00))
  unfolding connection channel_index
  of_channel raw above within =
      let small : (raw - 0xea00) % 2 ^ 8 ≡ raw - 0xea00 = omega (arith, above, within, in_range) in
      (ground (arith, above), rw (small, le→leb _ _ above) refl)

  -- A bearer that `from_raw` makes is that of a connection handle, or of a channel index of u8, from which
  -- `enhanced` makes it again.
  pub from_raw_names :
      (raw : ℕ) (bearer : AttBearer)
      → from_raw last_enhanced raw ≡ some bearer
      → (bearer.raw ≡ raw)
        × (((raw ≤ 0x0eff)
              × (connection last_enhanced bearer ≡ some raw)
              × (channel_index last_enhanced bearer ≡ none))
            ⊎ ((index : ℕ) × (index < 256)
                × (connection last_enhanced bearer ≡ none)
                × (channel_index last_enhanced bearer ≡ some index)
                × (enhanced last_enhanced index ≡ some bearer)))
  unfolding enhanced
  from_raw_names raw bearer h = elim (from_raw-cases raw) [
    | inr (inr (nameless, no_bearer)) ↦ cc
    | inl (low, e) ↦
        let same : record { raw = raw } ≡ bearer = made raw bearer e h in
        let (has, none_of) = of_connection raw low in rw (← same) (refl, inl (low, has, none_of))
    | inr (inl (above, within, e)) ↦
        let same : record { raw = raw } ≡ bearer = made raw bearer e h in
        let (no_connection, channel) = of_channel raw above within in
        let again : 0xea00 + (raw - 0xea00) ≡ raw = omega (arith, above) in
        rw (← same) (
          refl,
          inr (
            raw - 0xea00,
            omega (arith, above, within, in_range),
            no_connection,
            channel,
            rw again e,
          ),
        )
  ]
    where
      made :
          (raw : ℕ) (bearer : AttBearer)
          → from_raw last_enhanced raw ≡ some (record { raw = raw })
          → from_raw last_enhanced raw ≡ some bearer
          → record { raw = raw } ≡ bearer
      made raw bearer e h = cc

  -- Where the last enhanced bearer is at most 0xEAFF and bt-hci's decoder of a u16 is little-endian, every
  -- 16-bit value in front of other bytes: a connection handle (up to 0x0EFF), or a value from 0xEA00 to that
  -- of the last enhanced bearer, is decoded and written back as it was, and any other is invalid.
  pub decode_bearer_lem :
      (decode_u16 : Decoder ℕ) (raw : ℕ) (rest : List ℕ)
      → IsLittleEndian 2 decode_u16
      → raw < 65536
      → (IsNamed last_enhanced raw
          × (bearer : AttBearer) × (decode_bearer last_enhanced decode_u16
                (to_le_bytes 2 raw ++ rest)
              ≡ ok (bearer, rest))
          × (write_bearer last_enhanced bearer ≡ to_le_bytes 2 raw))
        ⊎ (IsNameless last_enhanced raw
            × (decode_bearer last_enhanced decode_u16 (to_le_bytes 2 raw ++ rest)
                ≡ err invalid_value))
  unfolding decode_bearer write_bearer
  decode_bearer_lem decode_u16 raw rest le h =
      let read =
        ap (λ r. r >>= λ x. bearer_of last_enhanced (from_raw last_enhanced x.0) x.1)
          (le.reads raw rest h) in
      let decoded = λ (o : Option AttBearer) (e : from_raw last_enhanced raw ≡ o).
        read ∙ ap (λ o. bearer_of last_enhanced o rest) e in
      elim (from_raw-cases raw) [
        | inr (inr (nameless, e)) ↦ inr (nameless, decoded none e)
        | inl (low, e) ↦
            inl (inl low, record { raw = raw }, decoded (some (record { raw = raw })) e, refl)
        | inr (inl (above, within, e)) ↦ inl (
          inr (above, within),
          record { raw = raw },
          decoded (some (record { raw = raw })) e,
          refl,
        )
      ]
