-- ===== src/Input/Grant.antt =====
-- crates/rda-input/src/grant.rs: grants, rate limits, the combination policy and the audit log.
pub mod Rates
use Prim.Native.Nat.{bit_and}
use remote.Prelude.{
  ℕ, ◌+◌, ◌-◌, ◌%◌, ◌≤◌, ◌<◌, ◌≡◌, refl, List, [], ◌∷◌, ◌++◌, Bool, true, false, ◌&&◌, ◌||◌, not,
  leb, ltb, ◌==◌, String, if◌then◌else◌, length, arith, length-append,
}
use remote.Proto.Caps.{SessionCaps, clamp_to}

pub data AuthMethod : Type 0 where
  session_pin unattended_token : AuthMethod

-- The bytes of a text: identifiers of sessions and devices.
abbrev pub Text : Type 0
Text = List ℕ

pub record SessionGrant : Type 0 where
  pub session_id : Text
  pub peer : Text
  pub caps : SessionCaps
  pub method : AuthMethod
  pub granted_at_ms : ℕ

unfoldable pub issue : Text → Text → SessionCaps → AuthMethod → ℕ → SessionGrant
issue session_id peer caps method granted_at_ms = record {
  session_id = session_id;
  peer = peer;
  caps = caps;
  method = method;
  granted_at_ms = granted_at_ms;
}

abbrev pub may_inject_input : SessionGrant → Bool
may_inject_input g = g.caps.input

abbrev pub may_use_clipboard : SessionGrant → Bool
may_use_clipboard g = g.caps.clipboard

unfoldable pub restrict : SessionGrant → SessionCaps → SessionGrant
restrict g to = record g { caps = clamp_to g.caps to }

pub data GuardError : Type 0 where
  input_not_granted clipboard_not_granted rate_limited : GuardError
  invalid_field : String → GuardError
  unknown_display disallowed_usage blocked_combination local_user_active : GuardError

pub record RateLimits : Type 0 where
  pub pointer_per_s : ℕ
  pub key_per_s : ℕ
  pub clipboard_per_s : ℕ

abbrev pub default_limits : RateLimits
default_limits = record { pointer_per_s = 1000; key_per_s = 100; clipboard_per_s = 20 }

pub data EventClass : Type 0 where
  pointer key clipboard : EventClass

pub record Window : Type 0 where
  pub start_ms : ℕ
  pub count : ℕ  -- u32
  pub dropped : ℕ

abbrev pub empty_window : Window
empty_window = record { start_ms = 0; count = 0; dropped = 0 }

-- The reset of a window that is a second old. `saturating_sub` is the subtraction of ℕ.
unfoldable pub roll : Window → ℕ → Window
roll w now_ms =
    if leb 1000 (now_ms - w.start_ms) then record w { start_ms = now_ms; count = 0 } else w

-- `Window::allow`.
unfoldable pub allow_in : Window → ℕ → ℕ → Window × Bool
unfolding roll
allow_in w limit now_ms =
    let rolled = roll w now_ms in
    let counted = record rolled { count = (rolled.count + 1) % 4294967296 } in
    if ltb limit counted.count
    then (record counted { dropped = counted.dropped + 1 }, false)
    else (counted, true)

pub record RateGuard : Type 0 where
  pub limits : RateLimits
  pub pointer : Window
  pub key : Window
  pub clipboard : Window

abbrev pub new_guard : RateLimits → RateGuard
new_guard limits = record {
  limits = limits;
  pointer = empty_window;
  key = empty_window;
  clipboard = empty_window;
}

-- `RateGuard::allow`.
unfoldable pub allow : RateGuard → EventClass → ℕ → RateGuard × Bool
allow g EventClass.pointer now_ms =
    let (w, within) = allow_in g.pointer g.limits.pointer_per_s now_ms in
    (record g { pointer = w }, within)
allow g EventClass.key now_ms =
    let (w, within) = allow_in g.key g.limits.key_per_s now_ms in (record g { key = w }, within)
allow g EventClass.clipboard now_ms =
    let (w, within) = allow_in g.clipboard g.limits.clipboard_per_s now_ms in
    (record g { clipboard = w }, within)

abbrev pub dropped : RateGuard → ℕ × ℕ × ℕ
dropped g = (g.pointer.dropped, g.key.dropped, g.clipboard.dropped)

-- CombinationPolicy: pairs of a modifier mask and a usage.
abbrev pub CombinationPolicy : Type 0
CombinationPolicy = List (ℕ × ℕ)

unfoldable pub block : CombinationPolicy → ℕ → ℕ → CombinationPolicy
block blocked modifiers usage = blocked ++ (modifiers, usage) ∷ []

-- `.any(|&(m, u)| u == usage && modifiers & m == m)`.
unfoldable pub any_blocks : CombinationPolicy → ℕ → ℕ → Bool
any_blocks [] modifiers usage = false
any_blocks ((m, u) ∷ rest) modifiers usage =
    (u == usage && bit_and modifiers m == m) || any_blocks rest modifiers usage

unfoldable pub permits : CombinationPolicy → ℕ → ℕ → Bool
unfolding any_blocks
permits blocked modifiers usage = not (any_blocks blocked modifiers usage)

pub data AuditEvent : Type 0 where
  session_started : (session_id peer : Text) (caps : SessionCaps) (method : AuthMethod) → AuditEvent
  session_ended : (session_id : Text) (duration_ms : ℕ) → AuditEvent
  capabilities_changed : (session_id : Text) (caps : SessionCaps) → AuditEvent
  local_takeover : (session_id : Text) → AuditEvent
  clipboard_transfer : (session_id : Text) (inbound : Bool) (bytes : ℕ) → AuditEvent
  rate_limit_tripped : (session_id : Text) (class : String) (dropped : ℕ) → AuditEvent
  injection_refused : (session_id : Text) (reason : String) → AuditEvent

pub record AuditLog : Type 0 where
  pub entries : List (ℕ × AuditEvent)
  pub capacity : ℕ

abbrev pub new_log : ℕ → AuditLog
new_log capacity = record { entries = []; capacity = capacity }

-- `Vec::remove(0)`.
abbrev pub remove_first {ℓ} : {A : Type ℓ} → List A → List A
remove_first [] = []
remove_first (x ∷ xs) = xs

-- `AuditLog::record`.
unfoldable pub record_event : AuditLog → ℕ → AuditEvent → AuditLog
record_event l now_ms event =
    let kept =
      if ltb 0 l.capacity && leb l.capacity (length l.entries)
      then remove_first l.entries
      else l.entries in
    record l { entries = kept ++ (now_ms, event) ∷ [] }
