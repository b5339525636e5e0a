-- ===== src/Input.antt =====
-- crates/rda-input: the injection boundary.
pub mod Hid
pub mod KeySet
pub mod KeyAction
pub mod KeyState
pub mod Grant
pub mod Backend
pub mod Display
pub mod Injector
