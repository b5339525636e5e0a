-- ===== src/Input/Injector.antt =====
-- crates/rda-input/src/lib.rs, `Injector`: everything that reaches an operating system's input.
-- A method takes the injector and returns the new one with its result; counters do not wrap.
pub mod State
pub mod Apply
pub mod Keeps
pub mod Actions
pub mod Allowlist
pub mod Control
pub mod Authority
