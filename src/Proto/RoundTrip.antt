-- ===== src/Proto/RoundTrip.antt =====
-- Encoding and decoding are inverse on the frames of Proto/WellFormed.antt.
mod Fields
mod Input
mod Session
mod Media
pub mod Frame
