-- ===== src/Diagnostics.antt =====
-- diagnostics.rs: the histogram of latencies, and the log files that rotate.
pub mod Histogram
pub mod Rotation
pub mod Bounded
