-- ===== src/Host/Session/State.antt =====
-- session.rs: the session's state, and the steps that its methods share.
use remote.Prelude.{ℕ, List, Bool, true, false, Option, none, some, String, ok, err, if◌then◌else◌}
use remote.Prelude.Stateful.{Stateful, pure, fail}
use remote.Proto.Caps.{SessionCaps}
use remote.Input.Grant.{SessionGrant, AuditLog, AuditEvent, record_event, Text}
use remote.Crypto.DeviceId.{DeviceId}
use remote.Crypto.Identity.{PublicIdentity, AddressBook}
use remote.Crypto.Binding.{BindingVerifier, BindingProof, BindingError}
use remote.Crypto.Pake.{PakeError, PinVerifier}
use remote.Crypto.Token.{TokenError}

pub data SessionState : Type 0 where
  awaiting_consent authenticating awaiting_confirmation established : SessionState
  closed : (reason : String) → SessionState
  failed : (reason : String) → SessionState

abbrev pub permits_input : SessionState → Bool
permits_input established = true
permits_input awaiting_consent = false
permits_input authenticating = false
permits_input awaiting_confirmation = false
permits_input (closed reason) = false
permits_input (failed reason) = false

pub data ConsentDecision : Type 0 where
  allow : SessionCaps → ConsentDecision
  deny : ConsentDecision

pub data SessionError : Type 0 where
  consent_denied consent_timeout key_changed wrong_state : SessionError
  pin : PakeError → SessionError
  token : TokenError → SessionError
  binding : BindingError → SessionError

abbrev pub consent_timeout_ms : ℕ
consent_timeout_ms = 30000

pub record PeerCredentials : Type 0 where
  pub identity : PublicIdentity
  pub binding : BindingVerifier
  pub proof : BindingProof

pub record HostSession : Type 0 where
  pub session_id : Text
  pub peer_id : DeviceId
  pub peer_identity : Option PublicIdentity
  pub state : SessionState
  pub requested_caps : SessionCaps
  pub consented_caps : Option SessionCaps
  pub grant : Option SessionGrant
  pub pin : Option PinVerifier
  pub pending_key : Option (List ℕ)
  pub started_at_ms : ℕ
  pub sas : Option (List String)

unfoldable pub new : Text → DeviceId → SessionCaps → ℕ → HostSession
new session_id peer_id requested_caps now_ms = record {
  session_id = session_id;
  peer_id = peer_id;
  peer_identity = none;
  state = awaiting_consent;
  requested_caps = requested_caps;
  consented_caps = none;
  grant = none;
  pin = none;
  pending_key = none;
  started_at_ms = now_ms;
  sas = none;
}

-- The session and what its methods take by `&mut`.
pub record Context : Type 0 where
  pub session : HostSession
  pub address_book : AddressBook
  pub audit : AuditLog

abbrev pub M : Type 0 → Type 0
M A = Stateful Context SessionError A

-- `self.state = …`.
abbrev pub set_state : SessionState → Context → Context
set_state state x = record x { session = record (x.session) { state = state } }

-- `audit.record(now_ms, event)`.
abbrev pub audited : ℕ → AuditEvent → Context → Context
audited now_ms event x = record x { audit = record_event x.audit now_ms event }

abbrev pub is_awaiting_consent : SessionState → Bool
is_awaiting_consent awaiting_consent = true
is_awaiting_consent authenticating = false
is_awaiting_consent awaiting_confirmation = false
is_awaiting_consent established = false
is_awaiting_consent (closed reason) = false
is_awaiting_consent (failed reason) = false

abbrev pub is_authenticating : SessionState → Bool
is_authenticating authenticating = true
is_authenticating awaiting_consent = false
is_authenticating awaiting_confirmation = false
is_authenticating established = false
is_authenticating (closed reason) = false
is_authenticating (failed reason) = false

abbrev pub is_awaiting_confirmation : SessionState → Bool
is_awaiting_confirmation awaiting_confirmation = true
is_awaiting_confirmation awaiting_consent = false
is_awaiting_confirmation authenticating = false
is_awaiting_confirmation established = false
is_awaiting_confirmation (closed reason) = false
is_awaiting_confirmation (failed reason) = false

abbrev pub is_closed : SessionState → Bool
is_closed (closed reason) = true
is_closed awaiting_consent = false
is_closed authenticating = false
is_closed awaiting_confirmation = false
is_closed established = false
is_closed (failed reason) = false

pub record PinAuthResponse : Type 0 where
  pub pake_message : List ℕ
  pub confirmation : List ℕ

-- The end of a method that failed for good.
abbrev pub fail_with : {A : Type 0} → String → SessionError → M A
fail_with reason e x = (set_state (failed reason) x, err e)

-- `some(x).ok_or(SessionError::WrongState)?`.
abbrev pub or_wrong_state : {A : Type 0} → Option A → M A
or_wrong_state none = fail wrong_state
or_wrong_state (some a) = pure a

abbrev pub require : (SessionState → Bool) → M (Unit {0})
require test x = if test x.session.state then (x, ok tt) else (x, err wrong_state)

abbrev pub put_pin : PinVerifier → Context → Context
put_pin v x = record x { session = record (x.session) { pin = some v } }
