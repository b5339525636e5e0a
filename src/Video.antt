-- ===== src/Video.antt =====
-- crates/rda-decode: video frames on the receiving side.
pub mod Reassembly
pub mod Jitter
pub mod Fragments
pub mod Transfer
pub mod Accepted
