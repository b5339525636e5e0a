-- ===== src/Input/Backend.antt =====
-- crates/rda-input/src/backend/mod.rs: the trait that the platforms implement. The platform code
-- itself is a parameter of the model.
use remote.Prelude.{ℕ, List, Bool, String, Result}
use remote.Prelude.Int.{ℤ}

pub data Button : Type 0 where
  left right middle back forward : Button

pub record ScrollDelta : Type 0 where
  pub vertical : ℤ
  pub horizontal : ℤ

pub data BackendError : Type 0 where
  permission_denied unavailable injection_failed : String → BackendError
  unmapped_usage : ℕ → BackendError
  unsupported : BackendError

-- `Result<(), BackendError>` beside the new state of the backend.
abbrev pub Answer : Type 0 → Type 0
Answer B = B × Result BackendError (Unit {0})

-- The trait. `pointer_relative` takes eighths of a pixel: the source divides an i16 by 8.0, which
-- is exact in an f64.
pub record Backend (B : Type 0) : Type 0 where
  pub pointer_absolute : B → ℤ → ℤ → Answer B
  pub pointer_relative : B → ℤ → ℤ → Answer B
  pub button : B → Button → Bool → Answer B
  pub scroll : B → ScrollDelta → Answer B
  pub key : B → ℕ → Bool → Answer B
  pub text : B → List ℕ → Answer B
