-- ===== src/HostState.antt =====
-- The state of the host's session: host-rust/crates/gnirehtet-vd/src/state.rs.
-- An `Instant` is a number of nanoseconds since some start, and a `String` is a text.
pub mod Machine
pub mod Run
pub mod Invariant
pub mod Traces
