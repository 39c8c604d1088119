-- ===== src/Tests.antt =====
-- Runs on concrete inputs, and the theorems at concrete inputs.
mod Protocol
mod HostState
mod Relay
mod Udp
mod Liveness
mod Lifecycle
mod Monitor
mod Recovery
mod Track
mod Tray
mod Adb
mod Control
mod Socks
mod Diagnostics
