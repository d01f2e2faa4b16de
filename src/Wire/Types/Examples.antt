-- ===== src/Wire/Types/Examples.antt =====
-- Declarations of crates/stm32wb-hci/src that the macros expand, their runs, and the theorems there.
use stm32wb_hci.Prelude.{ℕ, ◌≡◌, ◌≢◌, refl, Option, none, some, List, [], ◌∷◌, arith}
use stm32wb_hci.Wire.Decoding.{ok}
use stm32wb_hci.Wire.Decoding.Sample.{decode_le}
use stm32wb_hci.Wire.Types.{
  In, unknown, decode_or_unknown, enum_try_from, enum_value, enum_decode, new, range_try_from,
  from_millis,
}

data ScanType : Type 0 where
  passive active : ScanType

as_repr : ScanType → ℕ
as_repr passive = 0
as_repr active = 1

abbrev variants : List ScanType
variants = passive ∷ active ∷ []

as_repr-injective : (x y : ScanType) → as_repr x ≡ as_repr y → x ≡ y
unfolding as_repr
as_repr-injective x y h = ground arith

decodes_active : enum_decode as_repr variants (decode_le 1) (1 ∷ 9 ∷ []) ≡ ok (active, 9 ∷ [])
unfolding enum_decode enum_try_from decode_le as_repr
decodes_active = refl

keeps_unknown :
    decode_or_unknown (enum_value as_repr variants) (decode_le 1) (7 ∷ []) ≡ ok (unknown 7, [])
unfolding decode_or_unknown enum_try_from decode_le as_repr
keeps_unknown = refl

latency_special : range_try_from 0 0x1f3 (0x3e8 ∷ []) 0x3e8 ≡ ok 0x3e8
unfolding range_try_from
latency_special = refl

-- 15 ms in units of 1.25 ms.
interval_units : from_millis 16 1250 6 3200 15 ≡ some 12
unfolding from_millis
interval_units = refl

no_seven : (v : ScanType) → In v variants → as_repr v ≢ 7
unfolding as_repr
no_seven v m = ground arith

abbrev maybe : List (Option ℕ)
maybe = none ∷ some 4 ∷ none ∷ some 6 ∷ []

made_ten : new 6 3200 10 ≡ some 10
unfolding new
made_ten = refl
