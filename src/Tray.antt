-- ===== src/Tray.antt =====
-- The broker of the Windows application and its notification-area icon: the parts of
-- host-rust/crates/gnirehtet-vd/src/main.rs that decide what may run.
pub mod Broker
pub mod Reconcile
