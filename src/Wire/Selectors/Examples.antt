-- ===== src/Wire/Selectors/Examples.antt =====
-- Runs of the selectors of crates/stm32wb-hci/src/wire.rs, and the theorems there.
use stm32wb_hci.Prelude.{
  ℕ, ◌≡◌, ◌⊎◌, refl, true, false, none, some, List, [], ◌∷◌, ◌++◌, arith, length,
}
use stm32wb_hci.Prelude.Bytes.{to_le_bytes}
use stm32wb_hci.Wire.Decoding.{invalid_value, ok, err}
use stm32wb_hci.Wire.Decoding.Sample.{decode_le, decode_le-IsLittleEndian}
use stm32wb_hci.Wire.Selectors.{
  catalog_width, variants_match, is_variant, all_variants, union_matches, uuid16, uuid_variants,
  selector, size, write_hci, AttBearer, from_raw, decode_bearer, write_bearer, same_bytes,
  same_name,
}
use stm32wb_hci.Wire.Selectors.Unions.{Encodes, uuid_width}
use stm32wb_hci.Wire.Selectors.Bearers.{IsNamed, IsNameless, decode_bearer_lem}

abbrev uuid_catalog : List (ℕ × ℕ)
uuid_catalog = (1, 2) ∷ (2, 16) ∷ []

uuid_matches : union_matches uuid_variants uuid_catalog none 1 ≡ true
unfolding union_matches variants_match catalog_width all_variants is_variant
uuid_matches = refl

other_width : union_matches uuid_variants ((1, 2) ∷ []) (some 8) 1 ≡ false
unfolding union_matches variants_match catalog_width all_variants is_variant
other_width = refl

names_differ : same_name (0x41 ∷ 0x42 ∷ []) (0x41 ∷ 0x43 ∷ []) ≡ false
unfolding same_name same_bytes
names_differ = refl

channel_two : from_raw 0xea05 0xea02 ≡ some (record { raw = 0xea02 })
unfolding from_raw
channel_two = refl

uuid_width_example :
    (length (write_hci (uuid16 0x180d)) ≡ size (uuid16 0x180d))
    × Encodes uuid_catalog none (selector (uuid16 0x180d)) (length (write_hci (uuid16 0x180d)))
uuid_width_example = uuid_width uuid_catalog none 1 (uuid16 0x180d) uuid_matches (omega arith)

abbrev bearer_two : AttBearer
bearer_two = record { raw = 0xea02 }

decode_bearer_lem_example :
    (IsNamed 0xea05 0xea02
      × (bearer : AttBearer) × (decode_bearer 0xea05
            (decode_le 2)
            (to_le_bytes 2 0xea02 ++ (7 ∷ []))
          ≡ ok (bearer, 7 ∷ []))
      × (write_bearer 0xea05 bearer ≡ to_le_bytes 2 0xea02))
    ⊎ (IsNameless 0xea05 0xea02
        × (decode_bearer 0xea05 (decode_le 2) (to_le_bytes 2 0xea02 ++ (7 ∷ []))
            ≡ err invalid_value))
decode_bearer_lem_example =
    decode_bearer_lem 0xea05 (omega arith) (decode_le 2) 0xea02 (7 ∷ [])
      (decode_le-IsLittleEndian 2) (omega arith)
