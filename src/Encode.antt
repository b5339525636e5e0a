-- ===== src/Encode.antt =====
-- crates/rda-encode: the rate controller's decisions on keyframes and picture sizes.
pub mod Rate
