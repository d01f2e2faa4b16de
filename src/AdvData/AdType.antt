-- ===== src/AdvData/AdType.antt =====
-- crates/stm32wb-hci/src/adv_data.rs: the constants of `mod ad_type`.
use stm32wb_hci.Prelude.{ℕ}

abbrev pub flags : ℕ
flags = 0x01

abbrev pub incomplete_uuid16 : ℕ
incomplete_uuid16 = 0x02

abbrev pub complete_uuid16 : ℕ
complete_uuid16 = 0x03

abbrev pub incomplete_uuid128 : ℕ
incomplete_uuid128 = 0x06

abbrev pub complete_uuid128 : ℕ
complete_uuid128 = 0x07

abbrev pub shortened_local_name : ℕ
shortened_local_name = 0x08

abbrev pub complete_local_name : ℕ
complete_local_name = 0x09

abbrev pub tx_power_level : ℕ
tx_power_level = 0x0a

abbrev pub peripheral_conn_interval_range : ℕ
peripheral_conn_interval_range = 0x12

abbrev pub service_data_uuid16 : ℕ
service_data_uuid16 = 0x16

abbrev pub appearance : ℕ
appearance = 0x19

abbrev pub manufacturer_specific_data : ℕ
manufacturer_specific_data = 0xff
