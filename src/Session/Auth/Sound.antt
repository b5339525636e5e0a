-- ===== src/Session/Auth/Sound.antt =====
-- auth.rs: what the host has checked when it authenticates a peer.
use remote.Prelude.{subst, ℕ, List, ◌≡◌, ◌∙◌, refl, sym, ap, none, Result, ok, bytes_eq}
use remote.Prelude.Bytes.{codes}
use remote.Proto.MessageType.{hello, hello_ack, auth_request, auth_confirm, code}
use remote.Proto.Caps.{SessionCaps}
use remote.Crypto.Primitives.{Primitives}
use remote.Crypto.Identity.{Identity, PublicIdentity}
use remote.Crypto.Identity.Trust.{IsDerived}
use remote.Crypto.Binding
use remote.Crypto.Binding.{BindingVerifier, PeerRole, Fingerprint, new}
use remote.Crypto.Pake.{SessionPin, respond, confirm}
use remote.Session.Auth.Link.{
  AuthError, bad_pin, binding_failed, ConfirmBody, Codecs, Frame, Link, encode, decode, both,
}
use remote.Session.Auth.Run.{
  Authenticated, hello_of, to_array, authenticate_as_host, host_pake, host_grant,
}
use remote.Session.Auth.Inversion.{
  ok-injective, or_else-ok, to_array-ok, tag_matches-ok, lift-ok, assert-ok, send-ok, receive-ok,
  parse_identity-ok, fingerprints-ok, Arrives,
}

-- A verified proof, at equal identities and signatures.
of_peer :
    (c : Primitives) (v : BindingVerifier) {p q : PublicIdentity} {s r : List ℕ} {u : Unit {0}}
    → p ≡ q
    → s ≡ r
    → Binding.verify c v (record { role = PeerRole.controller; identity = p; signature = s }) none
      ≡ ok u
    → Binding.verify c v (record { role = PeerRole.controller; identity = q; signature = r }) none
      ≡ ok tt
of_peer c v peers signatures h =
    sym (λ i.
      Binding.verify c v
        (record { role = PeerRole.controller; identity = peers i; signature = signatures i }) none)
    ∙ h

-- The confirmation and the binding, checked with the key of the PAKE round.
pub record Confirmed (c : Primitives) (k : Codecs) (session_id key : List ℕ)
    (binding : BindingVerifier) (l : Link) (peer : PublicIdentity) : Type 0 where
  pub last : Frame
  pub answer : ConfirmBody
  pub arrived : Arrives last l.incoming
  pub read : decode k.confirm last (code auth_confirm) ≡ ok answer
  pub confirmed : answer.confirm ≡ confirm c key (codes "controller") session_id
  pub bound :
      Binding.verify c binding
        (record { role = PeerRole.controller; identity = peer; signature = answer.signature })
        none
      ≡ ok tt

module _ (c : Primitives) (k : Codecs) (session_id : List ℕ) (granted : SessionCaps) (t : Link)
    (a : Authenticated) where
  host_grant_sound :
      (peer : PublicIdentity) (binding : BindingVerifier) (key : List ℕ) (l : Link)
      → host_grant c k session_id granted peer binding key l ≡ (t, ok a)
      → Confirmed c k session_id key binding l peer × (a.peer ≡ peer) × (a.caps ≡ granted)
  unfolding host_grant
  host_grant_sound peer binding key l h =
      let (f3, answer, r3, a3, late3, d3, h10) = receive-ok k.confirm (code auth_confirm) _ _ h in
      let (tag, h11) = assert-ok _ _ _ _ h10 in
      let (signature, whole, h12) = lift-ok (to_array 64 answer.signature) _ _ h11 in
      let (u, bound, h13) = lift-ok _ _ _ h12 in
      let (alive, h14) = send-ok _ _ _ h13 in
      let made = ok-injective (ap (λ (r : Link × Result AuthError Authenticated). r.1) h14) in
      (
        record {
          last = f3;
          answer = answer;
          arrived = a3;
          read = d3;
          confirmed = tag_matches-ok _ _ tag;
          bound =
              of_peer c binding refl (sym (to_array-ok 64 answer.signature whole))
                (or_else-ok binding_failed _ bound);
        },
        sym (ap (λ (z : Authenticated). z.peer) made),
        sym (ap (λ (z : Authenticated). z.caps) made),
      )

  -- The host's round with the message that it received.
  abbrev pub Round : SessionPin → ℕ → ℕ → List ℕ → List ℕ → Type 0
  Round pin now_ms random message key =
      (out : List ℕ) × ((respond c message now_ms random
          (record { session_id = session_id; pin = pin })).1
        ≡ ok (out, key))

  host_pake_sound :
      (pin : SessionPin) (now_ms random : ℕ) (peer : PublicIdentity) (binding : BindingVerifier)
      (l : Link)
      → host_pake c k session_id pin granted now_ms random peer binding l ≡ (t, ok a)
      → (message : List ℕ) × (key : List ℕ) × Round pin now_ms random message key
        × Confirmed c k session_id key binding l peer
        × (a.peer ≡ peer)
        × (a.caps ≡ granted)
  unfolding host_pake
  host_pake_sound pin now_ms random peer binding l h =
      let (f2, request, r2, a2, late2, d2, h7) = receive-ok k.pake (code auth_request) _ _ h in
      let ((out, key), usable, h8) = lift-ok _ _ _ h7 in
      let (alive, h9) = send-ok _ _ _ h8 in
      let (confirmed, same, caps) = host_grant_sound peer binding key _ h9 in
      (
        request.message,
        key,
        (out, or_else-ok bad_pin _ usable),
        record {
          last = confirmed.last;
          answer = confirmed.answer;
          arrived = late2 confirmed.last confirmed.arrived;
          read = confirmed.read;
          confirmed = confirmed.confirmed;
          bound = confirmed.bound;
        },
        same,
        caps,
      )

  -- The host authenticates a peer only if a confirmation arrived whose tag is that of the key of
  -- the host's own PAKE round, and whose signature is that peer's over both fingerprints that
  -- the host observed; the peer's identifier follows from its key, and the grant is what the host
  -- offered.
  pub authenticate_as_host_sound :
      (i : Identity) (pin : SessionPin) (now_ms : ℕ) (nonce : List ℕ) (random : ℕ) (l : Link)
      → authenticate_as_host c k session_id i pin granted now_ms nonce random l ≡ (t, ok a)
      → (local_fp : Fingerprint) × (remote_fp : Fingerprint) × (peer_nonce : List ℕ)
        × (message : List ℕ) × (key : List ℕ) × (both l.local_fingerprint l.remote_fingerprint
            ≡ ok (local_fp, remote_fp))
        × Round pin now_ms random message key
        × Confirmed c k session_id key
            (new session_id PeerRole.host nonce peer_nonce local_fp remote_fp)
            l
            a.peer
        × IsDerived c a.peer
        × (a.caps ≡ granted)
  unfolding authenticate_as_host
  authenticate_as_host_sound i pin now_ms nonce random l h =
      let ((local_fp, remote_fp), observed, h1) = fingerprints-ok l _ h in
      let (f1, greeting, r1, a1, late1, d1, h2) = receive-ok k.hello (code hello) _ _ h1 in
      let (peer, derived, h3) = parse_identity-ok c greeting.pubkey _ _ h2 in
      let (peer_nonce, sized, h4) = lift-ok (to_array 32 greeting.nonce) _ _ h3 in
      let (equal, h5) = assert-ok (bytes_eq greeting.fingerprint remote_fp) binding_failed _ _ h4 in
      let (alive, h6) =
        send-ok (encode k.hello (code hello_ack) (hello_of c i nonce local_fp) 0) _ _ h5 in
      let binding = new session_id PeerRole.host nonce peer_nonce local_fp remote_fp in
      let (message, key, round, confirmed, same, caps) =
        host_pake_sound pin now_ms random peer binding _ h6 in
      (
        local_fp,
        remote_fp,
        peer_nonce,
        message,
        key,
        observed,
        round,
        record {
          last = confirmed.last;
          answer = confirmed.answer;
          arrived = late1 confirmed.last confirmed.arrived;
          read = confirmed.read;
          confirmed = confirmed.confirmed;
          bound = of_peer c binding (sym same) refl confirmed.bound;
        },
        subst (IsDerived c) (sym same) derived,
        caps,
      )
