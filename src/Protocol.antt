-- ===== src/Protocol.antt =====
-- The GNR4 control protocol: host-rust/crates/gnirehtet-vd/src/protocol.rs.
-- A `u8` is a number below 256, a byte slice or array is a list of them, and `usize` has 64 bits.
pub mod Types
pub mod Metrics
pub mod Frame
pub mod Session
