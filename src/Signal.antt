-- ===== src/Signal.antt =====
-- The routing of the signalling server (rda-signal-server) and the backoff of its client.
pub mod Backoff
pub mod Registry
pub mod Challenge
