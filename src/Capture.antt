-- ===== src/Capture.antt =====
-- crates/rda-capture.
pub mod Sink
