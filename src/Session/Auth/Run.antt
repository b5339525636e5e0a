-- ===== src/Session/Auth/Run.antt =====
-- auth.rs: both sides of the handshake. The nonces and scalars that they draw are arguments.
use remote.Prelude.{
  ◌&&◌, ℕ, List, [], ◌==◌, Bool, true, false, ◌&&◌, Option, none, some, String, Result, ok, err,
  if◌then◌else◌, length, bytes_eq,
}
use remote.Prelude.Bytes.{codes}
use remote.Prelude.Stateful.{pure, fail, ◌>>=◌, ◌>>◌}
use remote.Proto.MessageType.{
  hello, hello_ack, auth_request, auth_response, auth_confirm, session_ready, code,
}
use remote.Proto.Caps.{SessionCaps, to_names, from_names}
use remote.Crypto.Primitives.{Primitives}
use remote.Crypto.Identity.{Identity, PublicIdentity, public, from_bytes}
use remote.Crypto.Binding
use remote.Crypto.Binding.{
  BindingVerifier, BindingProof, PeerRole, Fingerprint, new, prove, transcript_hash,
}
use remote.Crypto.Pake.{SessionPin, start, finish, respond, confirm, confirm_matches}
use remote.Crypto.Sas.{short_authentication_string}
use remote.Session.Auth.Link.{
  AuthError, malformed, unexpected, bad_pin, binding_failed, HelloBody, ReadyBody, Codecs, M, send,
  encode, lift, receive, fingerprints,
}

pub record Authenticated : Type 0 where
  pub peer : PublicIdentity
  pub caps : SessionCaps
  pub sas : Option (List String)

-- `try_into` an array of so many bytes.
unfoldable pub to_array : ℕ → List ℕ → Result AuthError (List ℕ)
to_array n bytes = if length bytes == n then ok bytes else err malformed

-- `map_err(|_| e)`.
abbrev pub or_else : {E A : Type 0} → AuthError → Result E A → Result AuthError A
or_else e (ok a) = ok a
or_else e (err x) = err e

abbrev pub some_or : {A : Type 0} → AuthError → Option A → Result AuthError A
some_or e none = err e
some_or e (some a) = ok a

abbrev pub assert : Bool → AuthError → M (Unit {0})
assert true e = pure tt
assert false e = fail e

-- The comparison of a received tag with the expected one.
abbrev pub tag_matches : List ℕ → List ℕ → Bool
tag_matches tag expected = length tag == 32 && confirm_matches expected tag

unfoldable pub parse_identity : Primitives → List ℕ → M PublicIdentity
parse_identity c bytes = do
  array ← lift (to_array 32 bytes)
  lift (or_else malformed (from_bytes c array))

abbrev pub ready_of : SessionCaps → Option (List String) → ReadyBody
ready_of granted none = record { caps = to_names granted; sas = [] }
ready_of granted (some sas) = record { caps = to_names granted; sas = sas }

abbrev pub hello_of : Primitives → Identity → List ℕ → Fingerprint → HelloBody
hello_of c i nonce fp = record { pubkey = (public c i).key; nonce = nonce; fingerprint = fp }

module _ (c : Primitives) (k : Codecs) where
  -- The controller: its PIN is what the user typed, its draws the nonce and the scalar.
  unfoldable pub authenticate_as_controller :
      (session_id : List ℕ) → Identity → (pin nonce : List ℕ) (random : ℕ) → M Authenticated
  authenticate_as_controller session_id identity pin nonce random = do
    (local_fp, remote_fp) ← fingerprints
    send (encode k.hello (code hello) (hello_of c identity nonce local_fp) 0)
    ack ← receive k.hello (code hello_ack)
    host_identity ← parse_identity c ack.pubkey
    host_nonce ← lift (to_array 32 ack.nonce)
    assert (bytes_eq ack.fingerprint remote_fp) binding_failed
    let binding = new session_id PeerRole.controller nonce host_nonce local_fp remote_fp
    auth ← lift (or_else bad_pin (start c session_id pin random))
    send (encode k.pake (code auth_request) (record { message = auth.outbound; confirm = none }) 1)
    response ← receive k.pake (code auth_response)
    key ← lift (or_else bad_pin (finish auth response.message))
    host_tag ← lift (some_or unexpected response.confirm)
    assert (tag_matches host_tag (confirm c key (codes "host") session_id)) bad_pin
    send (
        encode k.confirm (code auth_confirm)
          (record {
            confirm = confirm c key (codes "controller") session_id;
            signature = (prove c binding identity).signature;
          })
          2)
    ready ← receive k.ready (code session_ready)
    pure (record {
      peer = host_identity;
      caps = from_names ready.caps;
      sas = short_authentication_string c (transcript_hash c binding) session_id;
    })

  -- The host from step 5 on: the confirmation, the binding and the grant.
  unfoldable pub host_grant :
      (session_id : List ℕ)
      → SessionCaps
      → PublicIdentity
      → BindingVerifier
      → (key : List ℕ) → M Authenticated
  host_grant session_id granted peer_identity binding key = do
    answer ← receive k.confirm (code auth_confirm)
    assert (tag_matches answer.confirm (confirm c key (codes "controller") session_id)) bad_pin
    signature ← lift (to_array 64 answer.signature)
    lift (
        or_else binding_failed (
          Binding.verify c binding
            (record { role = PeerRole.controller; identity = peer_identity; signature = signature })
            none))
    let sas = short_authentication_string c (transcript_hash c binding) session_id
    send (encode k.ready (code session_ready) (ready_of granted sas) 2)
    pure (record { peer = peer_identity; caps = granted; sas = sas })

  -- From step 3 on: `respond` counts an attempt of its copy of the PIN.
  unfoldable pub host_pake :
      (session_id : List ℕ)
      → SessionPin
      → SessionCaps
      → (now_ms random : ℕ) → PublicIdentity
      → BindingVerifier
      → M Authenticated
  host_pake session_id pin granted now_ms random peer_identity binding = do
    request ← receive k.pake (code auth_request)
    (our_message, key) ← lift (
        or_else bad_pin
          (respond c request.message now_ms random
            (record { session_id = session_id; pin = pin })).1)
    send (
        encode k.pake (code auth_response)
          (record {
            message = our_message;
            confirm = some (confirm c key (codes "host") session_id);
          })
          1)
    host_grant session_id granted peer_identity binding key

  -- The host; its PIN is the displayed one.
  unfoldable pub authenticate_as_host :
      (session_id : List ℕ)
      → Identity
      → SessionPin
      → SessionCaps
      → (now_ms : ℕ) (nonce : List ℕ) → (random : ℕ) → M Authenticated
  authenticate_as_host session_id identity pin granted now_ms nonce random = do
    (local_fp, remote_fp) ← fingerprints
    greeting ← receive k.hello (code hello)
    peer_identity ← parse_identity c greeting.pubkey
    peer_nonce ← lift (to_array 32 greeting.nonce)
    assert (bytes_eq greeting.fingerprint remote_fp) binding_failed
    send (encode k.hello (code hello_ack) (hello_of c identity nonce local_fp) 0)
    host_pake session_id pin granted now_ms random peer_identity
        (new session_id PeerRole.host nonce peer_nonce local_fp remote_fp)
