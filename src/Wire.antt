-- ===== src/Wire.antt =====
-- crates/stm32wb-hci/src/wire.rs: the wire types of HCI values, their checks and their codecs.
pub mod Base
pub mod Documented
pub mod Decoding
pub mod Types
pub mod Events
pub mod Sequences
pub mod Selectors
