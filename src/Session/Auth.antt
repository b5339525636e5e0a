-- ===== src/Session/Auth.antt =====
-- crates/rda-session/src/auth.rs: the PIN handshake, over the control channel.
pub mod Link
pub mod Run
pub mod Agreement
pub mod Both
pub mod Inversion
pub mod Sound
