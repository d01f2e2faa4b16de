-- ===== src/Lib.antt =====
-- A verification library for stm32wb-hci, the Bluetooth HCI host of the STM32WB and STM32WBA.
--
-- The host talks to a wireless coprocessor through packets in shared memory. The crate
-- crates/stm32wb-hci declares the vendor commands and events with macros; a declaration is checked when
-- it is compiled against what the catalog of ST's documents says, and uses the codecs of wire.rs.
-- examples/embassy/src/transport.rs carries the packets. crates/stm32wb-catalog holds the catalog, from
-- which the macros take one variant of a declaration for each run of releases.
--
-- Numbers are natural numbers. A machine integer of w bits keeps its wrap-around where the code casts,
-- and its bounds where the code checks them; a usize is taken to hold every length of memory. Signed
-- values that the checks compare are integers without bounds: the code adds 1 only below another i64.
--
-- Prelude: what the others share: tests, lists measured by native numbers, integers, little-endian
--   bytes, and the bits of `&` and `|`.
-- Wire/Documented: the compile-time checks of crates/stm32wb-hci/src/wire.rs (covered,
--   values_documented, declared, documented_values_declared, values_exactly, flags_documented,
--   documented_flags_declared, unit_documented, lengths_documented). The trait's constants are a record.
--   The loop of `covered` has fuel for one round more than there are items, since each round passes the
--   end of an item for good; the loop over the combinations of flags has fuel for one turn more than the
--   flags are as a number, since each turn goes to a smaller combination.
-- Wire/Types: what wire_values!, wire_flags!, wire_range! and wire_duration! generate, OrUnknown, and
--   `present`. Wire/Decoding says what bt-hci's decoders of integers are relied on for, and has one.
-- Wire/Sequences: decode_array, BoundedArray and Elements. `chunks_exact` has fuel for the number of
--   bytes, which is enough for a positive width.
-- Wire/Selectors: union_matches, Uuid, AttBearer and same_name; the last enhanced bearer of the release,
--   which a macro generates, is a parameter.
-- AdvData: crates/stm32wb-hci/src/adv_data.rs. A write out of an array's bounds is a panic, a value of
--   its own. AdvData/Structures has an independent reader of AD structures.
-- Transport/Queue: LinkedListNode of transport.rs on an explicit memory, and the loop of
--   MemoryManager::run_queue with fuel for one turn more than there are buffers.
-- Transport/Controller: ControllerAdapter. bt-hci's parsers and embassy's Signal are parameters with
--   laws (Api). `System` is the adapter, the commands that hold a SlotGuard, and whether `read` runs; a
--   `Step` is what runs between two awaits, and a future may be dropped at each of them. Wakers, and so
--   the fairness of waiting tasks, are not modelled.
-- Transport/Packets: VolatileWriter, CmdPacket::write_into, EvtBox and the status codes, on bytes at
--   addresses. Fences and the IPCC registers are not modelled.
-- Wire/Events: VendorEvent, SystemEvent and StandardEvent of wire.rs, the enums that
--   crates/stm32wb-hci-macros/src/dispatch.rs writes over the events of a declaration, BleEvent of
--   event.rs, and assert_event_width. bt-hci's EventKind, its Event and its decoder are parameters.
-- Catalog, after the files of crates/stm32wb-catalog/src. Release: versions and ranges of
--   release.rs, and their text. Target: profiles, platforms and families of target.rs. Hex: the codes
--   of hex.rs. Bearers: the text of a Bearer of lib.rs and validate_bearers. Layout: struct_width and
--   envelope of layout.rs, with fuel for the recursion through structures, which is enough where
--   structures refer to structures of a lower rank; a name is a number there, since names are only
--   compared. Domain: the documented values of domain.rs, which of them a profile accepts (items,
--   ranges, lengths, bits), their text, and validate_domain; an i64 that leaves its bounds wraps
--   around. Entries: the names, the availability and the definitions of commands and events in lib.rs,
--   validate_history, and what a target of view.rs sees of them. Queries: the targets, the status
--   codes and the names of a catalog, and distinct_targets of view.rs, where the addresses of items
--   are a parameter. Merge: what merge.rs makes of the snapshots of consecutive releases; `coalesce`
--   of itertools is a parameter with laws, and a BTreeMap is a list in the order of its keys. History:
--   `segments` of history.rs; how an entry is resolved in a release, and how two are compared, are
--   parameters. A text is the list of its codes (Prelude/Text, Prelude/Digits), and serde and TOML,
--   which pass texts on, are left out.
-- How they meet: Merge gives the ranges that Entries looks up and validate_history checks; Domain gives the
--   ranges that the macros write into a declaration, which Wire/Documented compares with its type; History
--   gives the runs of releases for which the macros write one variant.
--
-- Not modelled: the macros' generation of Rust code (crates/stm32wb-hci-macros), the extraction of the
-- catalog from C sources (crates/stm32wb-catalog-extract), the catalog's annotations and the checks of a
-- whole catalog, the text of layouts, the declarations of crates/stm32wb-hci/src/aci, and printing.
mod Prelude
pub mod Wire
pub mod AdvData
pub mod Transport
pub mod Catalog
