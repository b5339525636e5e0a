-- ===== src/Crypto.antt =====
-- crates/rda-crypto: identities, fingerprint binding, PIN authentication, access tokens.
pub mod Primitives
pub mod DeviceId
pub mod Identity
pub mod Binding
pub mod Pake
pub mod Token
pub mod Sas
