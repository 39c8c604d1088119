-- ===== src/Liveness.antt =====
-- Whether an awake headset has stopped answering: `AndroidLiveness` of
-- host-rust/crates/gnirehtet-vd/src/runtime.rs. An `Instant` and a `Duration` are nanoseconds.
pub mod Policy
pub mod Restarts
