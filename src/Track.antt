-- ===== src/Track.antt =====
-- What `adb track-devices` reports: `TrackDevicesDecoder` and its text parser, of
-- host-rust/crates/gnirehtet-vd/src/runtime.rs. Text is the bytes of its UTF-8.
pub mod Text
pub mod Decoder
pub mod Slices
pub mod Turns
pub mod Feeding
pub mod Chunks
pub mod Updates
