-- ===== src/AdvData/Methods.antt =====
-- crates/stm32wb-hci/src/adv_data.rs: the methods that append one structure, and the local name that
-- `aci_gap_set_discoverable` takes.
use mathlib.Core.List.{flatten}
use stm32wb_hci.Prelude.{ℕ, ◌+◌, Bool, List, [], ◌∷◌, length, replicate, ltb, if◌then◌else◌}
use stm32wb_hci.Prelude.Bytes.{to_le_bytes}
use stm32wb_hci.AdvData.{
  AdvData, Outcome, ok, err, ◌>>=◌, local_name, too_long, write_slice, structure, uuid16_list,
}
use stm32wb_hci.AdvData.AdType

module _ (n : ℕ) (self : AdvData) where
  -- `flags` are the bits of an `AdvFlags`.
  unfoldable pub flags : ℕ → Outcome AdvData
  flags bits = structure n self AdType.flags ((bits ∷ []) ∷ [])

  unfoldable pub complete_local_name : List ℕ → Outcome AdvData
  complete_local_name name = structure n self AdType.complete_local_name (name ∷ [])

  unfoldable pub shortened_local_name : List ℕ → Outcome AdvData
  shortened_local_name name = structure n self AdType.shortened_local_name (name ∷ [])

  unfoldable pub complete_uuid16_list : List ℕ → Outcome AdvData
  complete_uuid16_list uuids = uuid16_list n self AdType.complete_uuid16 uuids

  unfoldable pub incomplete_uuid16_list : List ℕ → Outcome AdvData
  incomplete_uuid16_list uuids = uuid16_list n self AdType.incomplete_uuid16 uuids

  unfoldable pub complete_uuid128_list : List (List ℕ) → Outcome AdvData
  complete_uuid128_list uuids = structure n self AdType.complete_uuid128 (flatten uuids ∷ [])

  unfoldable pub incomplete_uuid128_list : List (List ℕ) → Outcome AdvData
  incomplete_uuid128_list uuids = structure n self AdType.incomplete_uuid128 (flatten uuids ∷ [])

  -- `dbm` is the byte of the i8.
  unfoldable pub tx_power_level : ℕ → Outcome AdvData
  tx_power_level dbm = structure n self AdType.tx_power_level (to_le_bytes 1 dbm ∷ [])

  -- `min` and `max` are the units of two `ConnInterval`s.
  unfoldable pub peripheral_conn_interval_range : ℕ → ℕ → Outcome AdvData
  peripheral_conn_interval_range min max =
      structure n self AdType.peripheral_conn_interval_range
        (to_le_bytes 2 min ∷ to_le_bytes 2 max ∷ [])

  unfoldable pub service_data_uuid16 : ℕ → List ℕ → Outcome AdvData
  service_data_uuid16 uuid payload =
      structure n self AdType.service_data_uuid16 (to_le_bytes 2 uuid ∷ payload ∷ [])

  unfoldable pub appearance : ℕ → Outcome AdvData
  appearance value = structure n self AdType.appearance (to_le_bytes 2 value ∷ [])

  unfoldable pub manufacturer_specific_data : ℕ → List ℕ → Outcome AdvData
  manufacturer_specific_data company payload =
      structure n self AdType.manufacturer_specific_data (to_le_bytes 2 company ∷ payload ∷ [])

unfoldable pub local_name_structure : ℕ → List ℕ → Bool → Outcome AdvData
local_name_structure n name complete =
    let needed = 1 + length name in
    if ltb n needed then err (too_long n local_name needed) else do
      bytes ←
          write_slice (replicate n 0) 0
            ((if complete then AdType.complete_local_name else AdType.shortened_local_name) ∷ [])
      bytes ← write_slice bytes 1 name
      ok (record { bytes = bytes; len = needed })
