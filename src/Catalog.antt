-- ===== src/Catalog.antt =====
-- crates/stm32wb-catalog/src: the catalog of commands and events across the releases of the stack.
pub mod History
pub mod Release
pub mod Layout
pub mod Hex
pub mod Bearers
pub mod Target
pub mod Domain
pub mod Entries
pub mod Merge
pub mod Queries
