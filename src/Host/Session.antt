-- ===== src/Host/Session.antt =====
-- crates/rda-host/src/session.rs: the authorisation of a session, from consent to its grant.
-- A method takes the session with the address book and the audit log that it is lent, and returns
-- them with its result. Random numbers are arguments.
pub mod State
pub mod Authorise
pub mod Inversion
pub mod Sound
pub mod Splice
pub mod Safe
pub mod Honest
pub mod Handshake
