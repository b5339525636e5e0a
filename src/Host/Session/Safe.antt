-- ===== src/Host/Session/Safe.antt =====
-- session.rs as a step relation: whatever is called in whatever order, a session holds a grant only
-- when it is established, within what was requested, and a PIN is answered three times at most.
pub mod Rules
pub mod Keeps
use remote.Prelude.{
  ℕ, List, String, ◌≡◌, ◌≢◌, ◌≤◌, ◌<◌, refl, true, false, Bool, Option, none, some, Result, ok, err,
  inl, inr, arith, Bool-cases, IfSome,
}
use remote.Prelude.Stateful.{after}
use remote.Proto.Caps.{SessionCaps, clamp_to, IsWithin}
use remote.Input.Grant
use remote.Input.Grant.{AuditLog, SessionGrant}
use remote.Crypto.Primitives.{Primitives}
use remote.Crypto.Identity.{Identity, AddressBook}
use remote.Crypto.Pake.{PinVerifier}
use remote.Crypto.Token.{TokenStore}
use remote.Host.Session.State.{
  SessionState, established, HostSession, Context, PeerCredentials, ConsentDecision, new,
}
use remote.Host.Session.Authorise.{
  apply_consent, begin_pin_auth, complete_pin_auth, authenticate_with_token, restrict, close,
}

-- A call of any method, whatever it returns, with any random numbers.
pub data Step (c : Primitives) : Context → Context → Type 0 where
  consent :
      (x : Context) (d : ConsentDecision) (now_ms random : ℕ)
      → Step c x (apply_consent d now_ms random x).0
  begin :
      (x : Context) (message : List ℕ) (now_ms random : ℕ)
      → Step c x (begin_pin_auth c message now_ms random x).0
  complete :
      (x : Context) (tag : List ℕ) (peer : PeerCredentials) (now_ms : ℕ)
      → Step c x (complete_pin_auth c tag peer now_ms x).0
  token :
      (x : Context) (encoded : List ℕ) (host : Identity) (tokens : TokenStore)
      (peer : PeerCredentials) (now_ms : ℕ)
      → Step c x (authenticate_with_token c encoded host tokens peer now_ms x).0
  narrow : (x : Context) (to : SessionCaps) (now_ms : ℕ) → Step c x (restrict to now_ms x)
  ended : (x : Context) (reason : String) (now_ms : ℕ) → Step c x (close reason now_ms x)

pub data Reach (c : Primitives) (x : Context) : Context → Type 0 where
  here : Reach c x x
  next : {y z : Context} → Reach c x y → Step c y z → Reach c x z

-- A grant is this session's, within the request, in the established state.
abbrev pub Grants : HostSession → SessionGrant → Type 0
Grants s g =
    (s.state ≡ established)
    × (g.session_id ≡ s.session_id)
    × (g.peer ≡ s.peer_id)
    × IsWithin g.caps s.requested_caps

pub record IsSafe (s : HostSession) : Type 0 where
  pub grant : IfSome (Grants s) s.grant
  pub consent : IfSome (λ caps. IsWithin caps s.requested_caps) s.consented_caps
  pub attempts : IfSome (λ (v : PinVerifier). v.pin.attempts ≤ 3) s.pin
