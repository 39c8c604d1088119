-- ===== src/Socks.antt =====
-- The SOCKS server of socks.rs: requests, the monitor of Virtual Desktop's flows, and the candidates for a
-- connection to the Streamer.
pub mod Observation
pub mod Settle
pub mod Intact
pub mod Heard
pub mod Deadline
pub mod Group
pub mod Flows
pub mod Request
