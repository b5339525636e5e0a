-- ===== src/Host/Session/Authorise.antt =====
-- session.rs, the methods of `HostSession`, in the order of the source.
use remote.Prelude.{
  ℕ, List, ◌-◌, ◌/◌, ◌||◌, ltb, Option, none, some, String, Result, ok, err, not, if◌then◌else◌,
}
use remote.Prelude.Bytes.{codes}
use remote.Prelude.Stateful.{◌>>=◌, ◌>>◌, pure}
use remote.Proto.Caps.{SessionCaps, clamp_to}
use remote.Input.Grant
use remote.Input.Grant.{SessionGrant, AuditLog, AuditEvent, AuthMethod, issue, record_event, Text}
use remote.Crypto.Primitives.{Primitives}
use remote.Crypto.Identity.{Identity, PublicIdentity, PeerTrust, check_and_pin}
use remote.Crypto.Binding
use remote.Crypto.Binding.{
  BindingVerifier, BindingProof, BindingError, Fingerprint, PeerRole, transcript_hash,
}
use remote.Crypto.Pake.{
  PakeError, PinVerifier, generate, respond, confirm, confirm_matches, consume,
}
use remote.Crypto.Token
use remote.Crypto.Token.{TokenError, TokenStore, AccessToken, session_caps}
use remote.Crypto.Sas.{short_authentication_string}
use remote.Host.Session.State.{
  authenticating, awaiting_confirmation, established, closed, failed, ConsentDecision, allow, deny,
  SessionError, consent_denied, consent_timeout, key_changed, wrong_state, consent_timeout_ms,
  PeerCredentials, HostSession, Context, M, set_state, audited, is_awaiting_consent,
  is_authenticating, is_awaiting_confirmation, is_closed, PinAuthResponse, fail_with,
  or_wrong_state, require, put_pin,
}

-- The arms of the match on the decision; `random` is the number that the PIN is made of.
unfoldable pub decide : ConsentDecision → ℕ → ℕ → M (Unit {0})
decide deny now_ms random x = (
  audited now_ms (AuditEvent.injection_refused x.session.session_id "consent denied")
      (set_state (failed "consent denied") x),
  err consent_denied,
)
decide (allow caps) now_ms random x =
    let s = x.session in
    (
      record x {
        session = record s {
          consented_caps = some (clamp_to s.requested_caps caps);
          pin = some (record { session_id = s.session_id; pin = generate random now_ms });
          state = authenticating;
        };
      },
      ok tt,
    )

unfoldable pub apply_consent : ConsentDecision → ℕ → ℕ → M (Unit {0})
unfolding decide
apply_consent decision now_ms random x =
    if not (is_awaiting_consent x.session.state)
    then (x, err wrong_state)
    else if ltb consent_timeout_ms (now_ms - x.session.started_at_ms)
    then (set_state (failed "consent timed out") x, err consent_timeout)
    else decide decision now_ms random x

-- `self.pending_key.take()`.
unfoldable pub take_key : M (List ℕ)
take_key x =
    or_wrong_state x.session.pending_key
      (record x { session = record (x.session) { pending_key = none } })

-- Step 3: the address book.
unfoldable pub judge : PeerTrust → M (Unit {0})
judge PeerTrust.key_changed = fail_with "peer identity key changed" key_changed
judge PeerTrust.first_contact = pure tt
judge PeerTrust.known = pure tt

unfoldable pub check_book : PublicIdentity → M (Unit {0})
unfolding judge
check_book identity x =
    let (book, trust) = check_and_pin x.address_book identity in
    judge trust (record x { address_book = book })

-- Step 4: the binding.
unfoldable pub judge_binding : Result BindingError (Unit {0}) → M (Unit {0})
judge_binding (ok u) = pure tt
judge_binding (err e) = fail_with "fingerprint binding failed" (SessionError.binding e)

-- `if let Some(verifier) = self.pin.as_mut() { verifier.consume(); }`.
abbrev pub consume_pin : Option PinVerifier → Option PinVerifier
consume_pin none = none
consume_pin (some v) = some (consume v)

abbrev pub started : HostSession → SessionCaps → AuthMethod → AuditEvent
started s caps method = AuditEvent.session_started s.session_id s.peer_id caps method

unfoldable pub judge_token : Result TokenError AccessToken → M AccessToken
judge_token (ok t) = pure t
judge_token (err e) = fail_with "token rejected" (SessionError.token e)

module _ (c : Primitives) where
  -- `verifier.respond`, its verifier put back, and the state that its failure leaves.
  unfoldable pub answer_pin : PinVerifier × Result PakeError (List ℕ × List ℕ) → M PinAuthResponse
  answer_pin (v, err e) x = fail_with "PIN authentication failed" (SessionError.pin e) (put_pin v x)
  answer_pin (v, ok (message, key)) x =
      let s = x.session in
      (
        record x {
          session = record s {
            pin = some v;
            pending_key = some key;
            state = awaiting_confirmation;
          };
        },
        ok (record {
          pake_message = message;
          confirmation = confirm c key (codes "host") s.session_id;
        }),
      )

  unfoldable pub begin_pin_auth : List ℕ → ℕ → ℕ → M PinAuthResponse
  begin_pin_auth peer_pake_message now_ms random = do
    require is_authenticating
    verifier ← λ x. or_wrong_state x.session.pin x
    answer_pin (respond c peer_pake_message now_ms random verifier)

  -- Step 2: the key confirmation.
  unfoldable pub check_confirmation : List ℕ → List ℕ → M (Unit {0})
  check_confirmation shared_key peer_confirmation x =
      if confirm_matches (confirm c shared_key (codes "controller") x.session.session_id)
        peer_confirmation
      then (x, ok tt)
      else fail_with "PIN confirmation failed" (SessionError.pin PakeError.failed) x

  unfoldable pub check_binding : BindingVerifier → BindingProof → M (Unit {0})
  check_binding v proof x = judge_binding (Binding.verify c v proof (some x.session.peer_id)) x

  abbrev pub granted : HostSession → PeerCredentials → SessionCaps → AuthMethod → ℕ → HostSession
  granted s peer caps method now_ms = record s {
    peer_identity = some peer.identity;
    sas = short_authentication_string c (transcript_hash c peer.binding) s.session_id;
    grant = some (issue s.session_id s.peer_id caps method now_ms);
    state = established;
  }

  -- The end of `complete_pin_auth`, where the grant is made.
  unfoldable pub establish_by_pin : PeerCredentials → SessionCaps → ℕ → M (Unit {0})
  establish_by_pin peer caps now_ms x =
      let s = record (x.session) { pin = consume_pin x.session.pin } in
      (
        record x {
          session = granted s peer caps AuthMethod.session_pin now_ms;
          audit = record_event x.audit now_ms (started s caps AuthMethod.session_pin);
        },
        ok tt,
      )

  unfoldable pub complete_pin_auth : List ℕ → PeerCredentials → ℕ → M (Unit {0})
  complete_pin_auth peer_confirmation peer now_ms = do
    require is_awaiting_confirmation
    caps ← λ x. or_wrong_state x.session.consented_caps x
    shared_key ← take_key
    check_confirmation shared_key peer_confirmation
    check_book peer.identity
    check_binding peer.binding peer.proof
    establish_by_pin peer caps now_ms

  -- The end of `authenticate_with_token`: the token's capabilities are the ceiling.
  unfoldable pub establish_by_token : PeerCredentials → AccessToken → ℕ → M (Unit {0})
  establish_by_token peer t now_ms x =
      let s = x.session in
      let caps = clamp_to s.requested_caps (session_caps t.claims) in
      (
        record x {
          session = granted s peer caps AuthMethod.unattended_token now_ms;
          audit = record_event x.audit now_ms (started s caps AuthMethod.unattended_token);
        },
        ok tt,
      )

  unfoldable pub authenticate_with_token :
      List ℕ → Identity → TokenStore → PeerCredentials → ℕ → M (Unit {0})
  authenticate_with_token encoded_token host_identity tokens peer now_ms = do
    require (λ s. is_awaiting_consent s || is_authenticating s)
    t ←
        judge_token
          (Token.verify c tokens encoded_token host_identity peer.identity (now_ms / 1000))
    check_binding peer.binding peer.proof
    establish_by_token peer t now_ms

-- The arms of `if let Some(grant) = &self.grant`.
unfoldable pub restrict_grant : Option SessionGrant → SessionCaps → ℕ → Context → Context
restrict_grant none to now_ms x = x
restrict_grant (some g) to now_ms x =
    let narrowed = Grant.restrict g to in
    audited now_ms (AuditEvent.capabilities_changed x.session.session_id narrowed.caps)
      (record x { session = record (x.session) { grant = some narrowed } })

unfoldable pub restrict : SessionCaps → ℕ → Context → Context
unfolding restrict_grant
restrict to now_ms x = restrict_grant x.session.grant to now_ms x

unfoldable pub close : String → ℕ → Context → Context
close reason now_ms x =
    if is_closed x.session.state
    then x
    else audited now_ms
        (AuditEvent.session_ended x.session.session_id (now_ms - x.session.started_at_ms))
        (record x {
          session = record (x.session) { grant = none; pending_key = none; state = closed reason };
        })

-- The binding contexts of both sides, from one handshake.
unfoldable pub binding_pair :
    Text
    → (controller_fp host_fp : Fingerprint) (controller_nonce host_nonce : List ℕ)
    → BindingVerifier × BindingVerifier
binding_pair session_id controller_fp host_fp controller_nonce host_nonce = (
  Binding.new session_id PeerRole.controller controller_nonce host_nonce controller_fp host_fp,
  Binding.new session_id PeerRole.host host_nonce controller_nonce host_fp controller_fp,
)
