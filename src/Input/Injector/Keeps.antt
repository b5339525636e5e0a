-- ===== src/Input/Injector/Keeps.antt =====
-- An invariant through the injector's monad: a predicate on the backend that its permitted calls
-- keep, and the validity of the held keys.
use remote.Prelude.{ℕ, List, Bool, ok, err, Result, Option-cases, Bool-cases, inl, inr}
use remote.Prelude.Int.{ℤ}
use remote.Input.Backend.{Backend, BackendError, Button, ScrollDelta, Answer}
use remote.Input.Grant.{SessionGrant, EventClass, allow}
use remote.Input.Display.{find_display}
use remote.Input.KeyState.Valid.{IsValid, IsUsage}
use remote.Input.Injector.State.{
  Injector, M, ◌>>=◌, ◌>>◌, after, require_input, count_injected, rate_ok, display, call,
}

-- The calls that the trait's contract allows keep `P`: any pointer, button, scroll and text call,
-- and a key call whose usage is on the allowlist.
pub record IsClosed {B : Type 0} (api : Backend B) (P : B → Type 0) : Type 0 where
  pub pointer_absolute : (b : B) (x y : ℤ) → P b → P (api.pointer_absolute b x y).0
  pub pointer_relative : (b : B) (x y : ℤ) → P b → P (api.pointer_relative b x y).0
  pub button : (b : B) (id : Button) (down : Bool) → P b → P (api.button b id down).0
  pub scroll : (b : B) (delta : ScrollDelta) → P b → P (api.scroll b delta).0
  pub key : (b : B) (u : ℕ) (down : Bool) → IsUsage u → P b → P (api.key b u down).0
  pub text : (b : B) (bytes : List ℕ) → P b → P (api.text b bytes).0

pub record IsGood {B : Type 0} (P : B → Type 0) (s : Injector B) : Type 0 where
  pub backend : P s.backend
  pub keys : IsValid s.keys

abbrev pub Keeps : {B E A : Type 0} → (B → Type 0) → M B E A → Type 0
Keeps {B} P m = (s : Injector B) → IsGood P s → IsGood P (m s).0

module _ {B : Type 0} (P : B → Type 0) where
  Keeps-after :
      {E A C : Type 0} (r : Injector B × Result E A) (f : A → M B E C)
      → IsGood P r.0
      → ((a : A) → Keeps P (f a))
      → IsGood P (after r f).0
  Keeps-after (t, ok a) f g k = k a t g
  Keeps-after (t, err e) f g k = g

  pub Keeps-bind :
      {E A C : Type 0} (m : M B E A) (f : A → M B E C)
      → Keeps P m
      → ((a : A) → Keeps P (f a))
      → Keeps P (m >>= f)
  Keeps-bind m f h k s g = Keeps-after (m s) f (h s g) k

  pub Keeps-then :
      {E A C : Type 0} (m : M B E A) (k : M B E C) → Keeps P m → Keeps P k → Keeps P (m >> k)
  Keeps-then m k h j s g = Keeps-after (m s) (λ _. k) (h s g) (λ _. j)

  pub Keeps-require : (grant : SessionGrant) → Keeps P (require_input grant)
  unfolding require_input
  Keeps-require grant s g = elim (Bool-cases grant.caps.input) [
    | inl e ↦ rw (e, require_input) g
    | inr e ↦ rw (e, require_input) (record { backend = g.backend; keys = g.keys })
  ]

  pub Keeps-rate : (class : EventClass) (now : ℕ) → Keeps P (rate_ok class now)
  unfolding rate_ok
  Keeps-rate class now s g = elim (Bool-cases (allow s.rate class now).1) [
    | inl e ↦ rw (e, rate_ok) (record { backend = g.backend; keys = g.keys })
    | inr e ↦ rw (e, rate_ok) (record { backend = g.backend; keys = g.keys })
  ]

  pub Keeps-display : (id : ℕ) → Keeps P (display id)
  unfolding display
  Keeps-display id s g = elim (Option-cases (find_display s.displays id)) [
    | inl e ↦ rw (e, display) g
    | inr (d, e) ↦ rw (e, display) g
  ]

  pub Keeps-call :
      {E : Type 0} (f : BackendError → E) (ask : B → Answer B)
      → ((b : B) → P b → P (ask b).0)
      → Keeps P (call f ask)
  unfolding call
  Keeps-call f ask h s g = record { backend = h s.backend g.backend; keys = g.keys }

  pub Keeps-count : Keeps P count_injected
  Keeps-count s g = record { backend = g.backend; keys = g.keys }
