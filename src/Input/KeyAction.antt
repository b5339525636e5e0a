-- ===== src/Input/KeyAction.antt =====
-- crates/rda-input/src/state.rs, `KeyAction`: what the reconciler asks of the operating system.
use remote.Prelude.{ℕ}

pub data KeyAction : Type 0 where
  press release : ℕ → KeyAction

abbrev pub usage : KeyAction → ℕ
usage (press u) = u
usage (release u) = u
