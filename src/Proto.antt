-- ===== src/Proto.antt =====
-- crates/rda-proto: the wire protocol.
pub mod Reader
pub mod Caps
pub mod MessageType
pub mod Payload
pub mod Header
mod Utf8
pub mod Encode
pub mod Decode
pub mod Serial
pub mod Malformed
pub mod Fragment
pub mod WellFormed
pub mod RoundTrip
