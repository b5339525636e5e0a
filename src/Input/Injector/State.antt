-- ===== src/Input/Injector/State.antt =====
-- lib.rs, the injector's state, its monad, and the steps that `apply` is made of.
use remote.Prelude.{ℕ, ◌+◌, List, [], Result, ok, err, none, some, if◌then◌else◌}
use remote.Prelude.Stateful.{Stateful}
pub use remote.Prelude.Stateful.{after, ◌>>=◌, ◌>>◌, pure, fail}
use remote.Input.Backend.{Answer, BackendError}
use remote.Input.Display.{DisplayGeometry, find_display}
use remote.Input.Grant.{
  RateGuard, CombinationPolicy, GuardError, EventClass, SessionGrant, may_inject_input, allow,
  new_guard, default_limits, RateLimits,
}
use remote.Input.KeyState
use remote.Input.KeyState.{KeyState, reconcile_modifiers, release_all, is_empty}

-- `Remote` and `Local`.
pub data LocalControl : Type 0 where
  remote_peer local_user : LocalControl

pub record InjectorStats : Type 0 where
  pub injected : ℕ
  pub refused : ℕ
  pub reconciled : ℕ

pub record Injector (B : Type 0) : Type 0 where
  pub backend : B
  pub displays : List DisplayGeometry
  pub rate : RateGuard
  pub policy : CombinationPolicy
  pub keys : KeyState
  pub local_control : LocalControl
  pub stats : InjectorStats

abbrev pub no_stats : InjectorStats
no_stats = record { injected = 0; refused = 0; reconciled = 0 }

-- `Injector::new`.
unfoldable pub new : {B : Type 0} → B → List DisplayGeometry → Injector B
new backend displays = record {
  backend = backend;
  displays = displays;
  rate = new_guard default_limits;
  policy = [];
  keys = KeyState.new;
  local_control = LocalControl.remote_peer;
  stats = no_stats;
}

abbrev pub with_rate_limits : {B : Type 0} → Injector B → RateLimits → Injector B
with_rate_limits s limits = record s { rate = new_guard limits }

abbrev pub with_policy : {B : Type 0} → Injector B → CombinationPolicy → Injector B
with_policy s policy = record s { policy = policy }

abbrev pub set_displays : {B : Type 0} → Injector B → List DisplayGeometry → Injector B
set_displays s displays = record s { displays = displays }

-- A method on `&mut self` that may fail.
abbrev pub M : Type 0 → Type 0 → Type 0 → Type 0
M B E A = Stateful (Injector B) E A

-- `self.stats.refused += 1; return Err(e)`.
abbrev pub refuse : {B A : Type 0} → GuardError → M B GuardError A
refuse e s = (record s { stats = record (s.stats) { refused = s.stats.refused + 1 } }, err e)

-- `self.stats.injected += 1; Ok(())`.
abbrev pub count_injected : {B : Type 0} → M B GuardError (Unit {0})
count_injected s =
    (record s { stats = record (s.stats) { injected = s.stats.injected + 1 } }, ok tt)

unfoldable pub require_input : {B : Type 0} → SessionGrant → M B GuardError (Unit {0})
require_input grant =
    if may_inject_input grant then pure tt else refuse GuardError.input_not_granted

unfoldable pub rate_ok : {B : Type 0} → EventClass → ℕ → M B GuardError (Unit {0})
rate_ok class now_ms s =
    let (rate, within) = allow s.rate class now_ms in
    let t = record s { rate = rate } in
    if within then (t, ok tt) else refuse GuardError.rate_limited t

-- `self.display(id).ok_or(GuardError::UnknownDisplay)?`.
unfoldable pub display : {B : Type 0} → ℕ → M B GuardError DisplayGeometry
display id s = elim (find_display s.displays id) [
  | none ↦ (s, err GuardError.unknown_display)
  | some d ↦ (s, ok d)
]

-- A call of the backend, its new state put back; `map_err(|_| InvalidField(field))?`.
abbrev pub keep_error :
    {E : Type 0} → Result BackendError (Unit {0}) → (BackendError → E) → Result E (Unit {0})
keep_error (ok u) f = ok u
keep_error (err e) f = err (f e)

unfoldable pub call : {B E : Type 0} → (BackendError → E) → (B → Answer B) → M B E (Unit {0})
call f ask s =
    let (backend, answer) = ask s.backend in (record s { backend = backend }, keep_error answer f)
