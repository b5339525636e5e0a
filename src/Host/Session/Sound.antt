-- ===== src/Host/Session/Sound.antt =====
-- session.rs: what a session that was established has been checked for.
use remote.Prelude.{ℕ, List, ◌≡◌, ◌≢◌, ◌/◌, ◌||◌, refl, ap, true, some, Result, ok, subst}
use remote.Prelude.Bytes.{codes}
use remote.Proto.Caps.{SessionCaps, clamp_to}
use remote.Input.Grant.{AuthMethod, issue, record_event}
use remote.Crypto.Primitives.{Primitives}
use remote.Crypto.Binding
use remote.Crypto.Token
use remote.Crypto.Identity.{Identity, PeerTrust, check_and_pin}
use remote.Crypto.Pake.{confirm}
use remote.Crypto.Token.{AccessToken, TokenStore, session_caps}
use remote.Host.Session.State.{
  SessionState, SessionError, Context, PeerCredentials, awaiting_confirmation, awaiting_consent,
  authenticating, is_awaiting_confirmation, is_awaiting_consent, is_authenticating, established,
}
use remote.Host.Session.Authorise.{
  take_key, complete_pin_auth, authenticate_with_token, establish_by_pin, establish_by_token,
  started,
}
use remote.Host.Session.Inversion.{
  require-ok, or_wrong_state-ok, check_confirmation-ok, check_book-ok, check_binding-ok,
  judge_token-ok,
}

is_awaiting_confirmation→≡ :
    (s : SessionState) → is_awaiting_confirmation s ≡ true → s ≡ awaiting_confirmation
is_awaiting_confirmation→≡ awaiting_confirmation h = refl
is_awaiting_confirmation→≡ awaiting_consent h = absurd cc
is_awaiting_confirmation→≡ authenticating h = absurd cc
is_awaiting_confirmation→≡ established h = absurd cc
is_awaiting_confirmation→≡ (SessionState.closed reason) h = absurd cc
is_awaiting_confirmation→≡ (SessionState.failed reason) h = absurd cc

-- The session's fields that a grant is made of, and what the session keeps.
pub record IsEstablished (before after : Context) (caps : SessionCaps) (method : AuthMethod)
    (now_ms : ℕ) : Type 0 where
  pub state : after.session.state ≡ established
  pub grant :
      after.session.grant
      ≡ some (issue before.session.session_id before.session.peer_id caps method now_ms)
  pub requested : after.session.requested_caps ≡ before.session.requested_caps
  pub audit : after.audit ≡ record_event before.audit now_ms (started before.session caps method)

-- The four checks of a PIN session.
pub record PinChecked (c : Primitives) (x : Context) (tag : List ℕ) (peer : PeerCredentials)
    (key : List ℕ) : Type 0 where
  pub awaiting : x.session.state ≡ awaiting_confirmation
  pub derived : x.session.pending_key ≡ some key
  pub confirmed : confirm c key (codes "controller") x.session.session_id ≡ tag
  pub unchanged : (check_and_pin x.address_book peer.identity).1 ≢ PeerTrust.key_changed
  pub bound : Binding.verify c peer.binding peer.proof (some x.session.peer_id) ≡ ok tt

module _ (c : Primitives) where
  establish_by_pin_lem :
      (peer : PeerCredentials) (caps : SessionCaps) (now_ms : ℕ) (x : Context) (t : Context)
      → establish_by_pin c peer caps now_ms x ≡ (t, ok tt)
      → IsEstablished x t caps AuthMethod.session_pin now_ms
  unfolding establish_by_pin
  establish_by_pin_lem peer caps now_ms x t h =
      subst (λ y. IsEstablished x y caps AuthMethod.session_pin now_ms)
        (ap (λ (r : Context × Result SessionError (Unit {0})). r.0) h)
        (record { state = refl; grant = refl; requested = refl; audit = refl })

  pub establish_by_token_lem :
      (peer : PeerCredentials) (a : AccessToken) (now_ms : ℕ) (x : Context) (t : Context)
      → establish_by_token c peer a now_ms x ≡ (t, ok tt)
      → IsEstablished x t
          (clamp_to x.session.requested_caps (session_caps a.claims))
          AuthMethod.unattended_token
          now_ms
  unfolding establish_by_token
  establish_by_token_lem peer a now_ms x t h =
      subst
        (λ y.
          IsEstablished x y (clamp_to x.session.requested_caps (session_caps a.claims))
            AuthMethod.unattended_token now_ms)
        (ap (λ (r : Context × Result SessionError (Unit {0})). r.0) h)
        (record { state = refl; grant = refl; requested = refl; audit = refl })

  -- A PIN session is established only from the state that awaits the confirmation, by a tag that
  -- confirms the derived key, by an identity whose key has not changed and by a binding proof of the
  -- dialled device; its grant holds exactly the capabilities that were consented to.
  pub complete_pin_auth_sound :
      (x : Context) (tag : List ℕ) (peer : PeerCredentials) (now_ms : ℕ) (t : Context)
      → complete_pin_auth c tag peer now_ms x ≡ (t, ok tt)
      → (key : List ℕ) × (caps : SessionCaps) × PinChecked c x tag peer key
        × (x.session.consented_caps ≡ some caps)
        × IsEstablished x t caps AuthMethod.session_pin now_ms
  unfolding complete_pin_auth take_key
  complete_pin_auth_sound x tag peer now_ms t h =
      let (awaiting, h1) = require-ok is_awaiting_confirmation x _ h in
      let (caps, consented, h2) = or_wrong_state-ok x.session.consented_caps x _ h1 in
      let (key, derived, h3) = or_wrong_state-ok x.session.pending_key _ _ h2 in
      let (confirmed, h4) = check_confirmation-ok c key tag _ _ h3 in
      let (unchanged, h5) = check_book-ok peer.identity _ _ h4 in
      let (bound, h6) = check_binding-ok c peer.binding peer.proof _ _ h5 in
      let made = establish_by_pin_lem peer caps now_ms _ t h6 in
      (
        key,
        caps,
        record {
          awaiting = is_awaiting_confirmation→≡ x.session.state awaiting;
          derived = derived;
          confirmed = confirmed;
          unchanged = unchanged;
          bound = bound;
        },
        consented,
        record {
          state = made.state;
          grant = made.grant;
          requested = made.requested;
          audit = made.audit;
        },
      )

  -- An unattended session is established only before any authentication, by a token that the
  -- store accepts for the identity that was presented and by a binding proof of the dialled device;
  -- its grant holds what was requested and the token allows.
  pub authenticate_with_token_sound :
      (x : Context) (encoded : List ℕ) (host : Identity) (tokens : TokenStore)
      (peer : PeerCredentials) (now_ms : ℕ) (t : Context)
      → authenticate_with_token c encoded host tokens peer now_ms x ≡ (t, ok tt)
      → (a : AccessToken) × ((is_awaiting_consent x.session.state
            || is_authenticating x.session.state)
          ≡ true)
        × (Token.verify c tokens encoded host peer.identity (now_ms / 1000) ≡ ok a)
        × (Binding.verify c peer.binding peer.proof (some x.session.peer_id) ≡ ok tt)
        × IsEstablished x t
            (clamp_to x.session.requested_caps (session_caps a.claims))
            AuthMethod.unattended_token
            now_ms
  unfolding authenticate_with_token
  authenticate_with_token_sound x encoded host tokens peer now_ms t h =
      let (early, h1) = require-ok (λ s. is_awaiting_consent s || is_authenticating s) x _ h in
      let (a, accepted, h2) =
        judge_token-ok (Token.verify c tokens encoded host peer.identity (now_ms / 1000)) x _ h1 in
      let (bound, h3) = check_binding-ok c peer.binding peer.proof x _ h2 in
      (a, early, accepted, bound, establish_by_token_lem peer a now_ms x t h3)
