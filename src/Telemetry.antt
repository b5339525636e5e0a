-- ===== src/Telemetry.antt =====
-- crates/rda-telemetry/src/lib.rs: loss, sequence numbers and the degradation ladder.
pub mod Loss
pub mod Sequence
pub mod Ladder
