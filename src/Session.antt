-- ===== src/Session.antt =====
-- crates/rda-session: what runs over a session once its transport is up.
pub mod Auth
