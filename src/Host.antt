-- ===== src/Host.antt =====
-- crates/rda-host.
pub mod Session
