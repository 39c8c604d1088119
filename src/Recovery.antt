-- ===== src/Recovery.antt =====
-- The recovery of the wired transport: `AdbHealthMonitor` of
-- host-rust/crates/gnirehtet-vd/src/runtime.rs, the part that owns the recovery's generation.
pub mod State
pub mod Status
pub mod Monitor
pub mod Run
pub mod Invariant
pub mod Attempts
