-- ===== src/AdvData/Examples.antt =====
-- Runs of crates/stm32wb-hci/src/adv_data.rs on the data of its tests, and the theorems there.
use stm32wb_hci.Prelude.{
  ℕ, ◌≤◌, ◌≡◌, ◌≢◌, refl, some, List, [], ◌∷◌, ◌++◌, map, length, replicate, arith,
}
use stm32wb_hci.Prelude.Bytes.{to_le_bytes}
use stm32wb_hci.AdvData.{
  AdvData, ok, panic, parts_len, write_slice, write_parts, write_uuids, add_to_length, structure,
  as_bytes, empty, uuid16_list,
}
use stm32wb_hci.AdvData.Methods
use stm32wb_hci.AdvData.Methods.{local_name_structure}
use stm32wb_hci.AdvData.Append.{IsWellFormed}
use stm32wb_hci.AdvData.Structures.{read_structures, read_structures-nil, builder_returns}
use stm32wb_hci.AdvData.Builder.{Call, run_all, run, described, run_all_reads}

-- The calls of `structures_are_length_type_and_data`.
abbrev sample_calls : List Call
sample_calls =
    Call.flags 6
    ∷ Call.complete_local_name (0x57 ∷ 0x42 ∷ [])
    ∷ Call.complete_uuid16_list (0x180d ∷ 0x180f ∷ [])
    ∷ Call.manufacturer_specific_data 0x30 (0xaa ∷ [])
    ∷ []

abbrev sample_bytes : List ℕ
sample_bytes =
    2 ∷ 0x01 ∷ 6 ∷ 3 ∷ 0x09 ∷ 0x57 ∷ 0x42 ∷ 5 ∷ 0x03 ∷ 0x0d ∷ 0x18 ∷ 0x0f ∷ 0x18 ∷ 4 ∷ 0xff ∷ 0x30
    ∷ 0 ∷ 0xaa ∷ []

abbrev sample : AdvData
sample = record { bytes = sample_bytes ++ replicate 13 0; len = 18 }

sample_runs : run_all 31 (empty 31) sample_calls ≡ ok sample
unfolding run_all run empty Methods.flags Methods.complete_local_name Methods.complete_uuid16_list
    Methods.manufacturer_specific_data uuid16_list structure write_slice write_parts write_uuids
    add_to_length parts_len to_le_bytes
sample_runs = refl

empty-IsWellFormed : (n : ℕ) → length (replicate {A = ℕ} n 0) ≡ n → IsWellFormed n (empty n)
unfolding empty
empty-IsWellFormed n h = record { capacity = h; within = omega arith }

empty_reads : (n : ℕ) → read_structures (as_bytes n (empty n)) ≡ some []
unfolding empty as_bytes
empty_reads n = read_structures-nil

abbrev one_flag : AdvData
one_flag = record { bytes = 2 ∷ 1 ∷ 6 ∷ 0 ∷ 0 ∷ 0 ∷ 0 ∷ 0 ∷ []; len = 3 }

flag_runs : structure 8 (empty 8) 1 ((6 ∷ []) ∷ []) ≡ ok one_flag
unfolding structure write_slice write_parts parts_len empty
flag_runs = refl

abbrev one_uuid : AdvData
one_uuid = record { bytes = 3 ∷ 3 ∷ 0x0d ∷ 0x18 ∷ 0 ∷ 0 ∷ 0 ∷ 0 ∷ []; len = 4 }

uuid_runs : uuid16_list 8 (empty 8) 3 (0x180d ∷ []) ≡ ok one_uuid
unfolding uuid16_list structure write_slice write_parts write_uuids add_to_length parts_len empty
    to_le_bytes
uuid_runs = refl

run_all_reads_example :
    (read_structures (as_bytes 31 sample) ≡ some (map described sample_calls)) × (18 ≤ 31)
run_all_reads_example = run_all_reads 31 sample_calls sample sample_runs

builder_returns_example :
    (structure 8 (empty 8) 1 ((6 ∷ []) ∷ []) ≢ panic)
    × (uuid16_list 8 (empty 8) 1 (1 ∷ 2 ∷ 3 ∷ 4 ∷ []) ≢ panic)
builder_returns_example =
    builder_returns 8 (empty 8) 1 ((6 ∷ []) ∷ []) (1 ∷ 2 ∷ 3 ∷ 4 ∷ []) (empty-IsWellFormed 8 refl)
