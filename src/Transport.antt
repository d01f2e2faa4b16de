-- ===== src/Transport.antt =====
-- examples/embassy/src/transport.rs: the transport to the wireless coprocessor.
pub mod Queue
pub mod Controller
pub mod Packets
