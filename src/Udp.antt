-- ===== src/Udp.antt =====
-- UDP over the wired link: host-rust/crates/gnirehtet-vd/src/udp.rs.
pub mod Endpoint
pub mod Frame
pub mod Budget
pub mod Writer
