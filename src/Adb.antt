-- ===== src/Adb.antt =====
-- The ADB transactions of host-rust/crates/gnirehtet-vd/src/adb.rs: what the host asks of adb and of
-- the headset to start, stop and repair a session. The process that runs adb is a parameter. A text is
-- the list of its characters.
pub mod Actions
pub mod Types
pub mod Parse
pub mod Commands
pub mod Status
pub mod Transactions
pub mod Verified
pub mod Stops
pub mod Starts
pub mod Failures
pub mod Deadline
pub mod Listing
