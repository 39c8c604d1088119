-- ===== src/Control.antt =====
-- The control server of control.rs: connection handlers that share one state machine.
pub mod Types
pub mod Select
pub mod Connection
pub mod Run
pub mod Superseded
pub mod Epochs
pub mod Requests
pub mod Accounts
pub mod Bypass
