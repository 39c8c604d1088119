-- ===== src/Lifecycle.antt =====
-- The lifecycle commands of host-rust/crates/gnirehtet-vd/src/main.rs: start, stop and repair, over the
-- transactions of adb.
pub mod Platform
pub mod Start
pub mod Stop
pub mod Reached
pub mod StartRuns
pub mod StopRuns
pub mod Outcomes
pub mod Suppressed
