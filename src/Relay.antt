-- ===== src/Relay.antt =====
-- Which relay flows may run: `RelayGate` of host-rust/crates/gnirehtet-vd/src/socks.rs, and
-- `RelayGateController` of host-rust/crates/gnirehtet-vd/src/runtime.rs, which drives it.
pub mod Gate
pub mod Controller
pub mod Eligible
pub mod Flows
pub mod Timers
