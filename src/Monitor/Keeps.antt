-- ===== src/Monitor/Keeps.antt =====
-- What every step of a task keeps, the monitor's task keeps as a whole: `AdbHealthMonitor::run` of
-- host-rust/crates/gnirehtet-vd/src/runtime.rs acts on what it shares by such steps alone.
pub mod Waits
pub mod Repairs
pub mod Rebuilds
pub mod Restarts
pub mod Turns
