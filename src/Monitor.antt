-- ===== src/Monitor.antt =====
-- The task that supervises adb, the observers of the control server and the administration requests:
-- `AdbHealthMonitor::run` with all that it calls, and `AdminServer::handle`, of
-- host-rust/crates/gnirehtet-vd/src/runtime.rs. Around every wait the other tasks of the host may
-- act: what they do is part of the input.
pub mod Changes
pub mod Shared
pub mod Host
pub mod Reconcile
pub mod Rebuild
pub mod Supervise
pub mod Arms
pub mod Loop
pub mod Keeps
pub mod Closed
pub mod Rebuilt
pub mod Secret
pub mod Admin
pub mod Reopens
pub mod Authorized
