-- ===== src/Session/Auth/Agreement.antt =====
-- auth.rs: both sides run against each other.
use remote.Prelude.{
  ==_iff, Bool, ℕ, List, [], ◌∷◌, ◌++◌, ◌≡◌, ◌∙◌, refl, sym, ap, true, none, some, Option, String,
  Result, ok, arith, length, bytes_eq_refl,
}
use remote.Prelude.Bytes.{codes}
use remote.Prelude.Stateful.{after-eq}
use remote.Proto.MessageType.{
  hello, hello_ack, auth_request, auth_response, auth_confirm, session_ready, code,
}
use remote.Proto.Caps.{SessionCaps, to_names, from_names, from_names-to_names}
use remote.Crypto.Primitives.{Primitives, IsLawful, Exchange}
use remote.Crypto.Identity.{sign, Identity, PublicIdentity, public, from_bytes}
use remote.Crypto.Identity.Trust.{IsDerived}
use remote.Crypto.Binding
use remote.Crypto.Binding.{
  BindingVerifier, BindingProof, PeerRole, Fingerprint, new, prove, transcript_hash, binding_input,
}
use remote.Crypto.Binding.Laws.{verify-unnamed}
use remote.Crypto.Pake.{
  SessionPin, PinVerifier, start, finish, respond, confirm, confirm_matches, is_usable,
}
use remote.Session.Auth.Link.{
  binding_failed, bad_pin, malformed, AuthError, Cbor, Codecs, AreLawful, Frame, Event, frame, Link,
  next_frame, next_of, send, encode, decode, lift, receive, fingerprints,
}
use remote.Crypto.Sas.{short_authentication_string}
use remote.Session.Auth.Run.{
  Authenticated, to_array, or_else, assert, tag_matches, parse_identity, hello_of, ready_of,
  authenticate_as_controller, authenticate_as_host, host_pake, host_grant,
}

-- A session on which every frame is taken.
abbrev pub link : Fingerprint → Fingerprint → List Event → List Frame → Link
link local remote incoming sent = record {
  local_fingerprint = some local;
  remote_fingerprint = some remote;
  incoming = incoming;
  sent = sent;
  alive = λ n. true;
}

-- The frames as they arrive at the other side.
abbrev pub delivered : List Frame → List Event
delivered [] = []
delivered (f ∷ fs) = frame f ∷ delivered fs

module _ (local remote : Fingerprint) where
  fingerprints-link :
      (i : List Event) (s : List Frame)
      → fingerprints (link local remote i s) ≡ (link local remote i s, ok (local, remote))
  unfolding fingerprints
  fingerprints-link i s = refl

  send-link :
      (f : Frame) (i : List Event) (s : List Frame)
      → send f (link local remote i s) ≡ (link local remote i (s ++ f ∷ []), ok tt)
  unfolding send
  send-link f i s = refl

  receive-link :
      {T : Type 0} (c : Cbor T) (kind seq : ℕ) (body : T) (i : List Event) (s : List Frame)
      → c.from_reader (c.into_writer body) ≡ some body
      → receive c kind (link local remote (frame (encode c kind body seq) ∷ i) s)
        ≡ (link local remote i s, ok body)
  unfolding receive next_frame next_of encode decode
  receive-link c kind seq body i s law = rw ((==_iff kind kind).1 refl, law) refl

lift_ok : {A : Type 0} (r : Result AuthError A) (a : A) (l : Link) → r ≡ ok a → lift r l ≡ (l, ok a)
lift_ok r a l h = rw h refl

to_array_ok : (n : ℕ) (b : List ℕ) → length b ≡ n → to_array n b ≡ ok b
unfolding to_array
to_array_ok n b h = ground arith

assert_ok : (e : AuthError) (l : Link) (t : Bool) → t ≡ true → assert t e l ≡ (l, ok tt)
assert_ok e l t h = rw h refl

tag_matches_self :
    (c : Primitives) (law : IsLawful c) (key role id : List ℕ)
    → tag_matches (confirm c key role id) (confirm c key role id) ≡ true
unfolding confirm confirm_matches
tag_matches_self c law key role id = ground (
  arith,
  law.length-sha256 (codes "RDA-v1-pin-confirm" ++ (0 ∷ [] ++ (key ++ (role ++ id)))),
  bytes_eq_refl (confirm c key role id),
)

from_bytes_ok :
    (c : Primitives) (law : IsLawful c) (i : Identity)
    → IsDerived c (public c i)
    → or_else malformed (from_bytes c (c.verifying_key i.signing_key)) ≡ ok (public c i)
unfolding public from_bytes
from_bytes_ok c law i derived = rw (law.is_point-verifying_key i.signing_key) (
    ap (λ (id : List ℕ). ok (record { key = c.verifying_key i.signing_key; device_id = id }))
      (sym derived))

parse_identity_ok :
    (c : Primitives) (law : IsLawful c) (i : Identity) (l : Link)
    → IsDerived c (public c i)
    → parse_identity c (public c i).key l ≡ (l, ok (public c i))
unfolding parse_identity public
parse_identity_ok c law i l derived =
    let key = c.verifying_key i.signing_key in
    after-eq _ (lift_ok _ key l (to_array_ok 32 key (law.length-verifying_key i.signing_key)))
    ∙ lift_ok _ (public c i) l (from_bytes_ok c law i derived)

ready_of-caps :
    (granted : SessionCaps) (words : Option (List String))
    → (ready_of granted words).caps ≡ to_names granted
ready_of-caps granted none = refl
ready_of-caps granted (some words) = refl

result_eq :
    (p : PublicIdentity) {a b : SessionCaps} {s t : Option (List String)}
    → a ≡ b
    → s ≡ t
    → ◌≡◌ {A = Authenticated}
        (record { peer = p; caps = a; sas = s })
        (record { peer = p; caps = b; sas = t })
result_eq p f g = λ i. record { peer = p; caps = f i; sas = g i }

module _ (c : Primitives) (law : IsLawful c) (k : Codecs) (session_id : List ℕ)
    (controller host : Identity) (controller_derived : IsDerived c (public c controller))
    (host_derived : IsDerived c (public c host)) (pin : SessionPin) (granted : SessionCaps)
    (now_ms : ℕ) (nonce_c nonce_h fp_c fp_h : List ℕ) (random_c random_h : ℕ)
    (reads : AreLawful k (
      ready_of granted (
        short_authentication_string c
          (transcript_hash c (new session_id PeerRole.host nonce_h nonce_c fp_h fp_c))
          session_id)))
    (sized_c : length nonce_c ≡ 32) (sized_h : length nonce_h ≡ 32) (e : Exchange) (v : PinVerifier)
    (out key : List ℕ) (started : start c session_id pin.digits random_c ≡ ok e)
    (responded : respond c e.outbound now_ms random_h
        (record { session_id = session_id; pin = pin })
      ≡ (v, ok (out, key)))
    (finished : finish e out ≡ ok key) where
  abbrev pub bind_c : BindingVerifier
  bind_c = new session_id PeerRole.controller nonce_c nonce_h fp_c fp_h

  abbrev pub bind_h : BindingVerifier
  bind_h = new session_id PeerRole.host nonce_h nonce_c fp_h fp_c

  abbrev pub words : Option (List String)
  words = short_authentication_string c (transcript_hash c bind_h) session_id

  abbrev pub m1 : Frame
  m1 = encode k.hello (code hello) (hello_of c controller nonce_c fp_c) 0

  abbrev pub m2 : Frame
  m2 = encode k.hello (code hello_ack) (hello_of c host nonce_h fp_h) 0

  abbrev pub m3 : Frame
  m3 = encode k.pake (code auth_request) (record { message = e.outbound; confirm = none }) 1

  abbrev pub m4 : Frame
  m4 =
      encode k.pake (code auth_response)
        (record { message = out; confirm = some (confirm c key (codes "host") session_id) }) 1

  abbrev pub m5 : Frame
  m5 =
      encode k.confirm (code auth_confirm)
        (record {
          confirm = confirm c key (codes "controller") session_id;
          signature = (prove c bind_c controller).signature;
        })
        2

  abbrev pub m6 : Frame
  m6 = encode k.ready (code session_ready) (ready_of granted words) 2

  same_transcript : transcript_hash c bind_c ≡ transcript_hash c bind_h
  unfolding transcript_hash new
  same_transcript = refl

  signature_sized : length (prove c bind_c controller).signature ≡ 64
  unfolding prove sign
  signature_sized = law.length-sign _ _

  -- The host's check of the controller's proof, made with the identity of its hello.
  proof_verified :
      Binding.verify c bind_h
        (record {
          role = PeerRole.controller;
          identity = public c controller;
          signature = (prove c bind_c controller).signature;
        })
        none
      ≡ ok tt
  unfolding prove public sign new Binding.peer
  proof_verified = verify-unnamed c bind_h _ refl (
      law.verify-sign controller.signing_key
        (binding_input session_id nonce_c nonce_h fp_c fp_h PeerRole.controller))

  pub controller_run :
      authenticate_as_controller c k session_id controller pin.digits nonce_c random_c
        (link fp_c fp_h (frame m2 ∷ frame m4 ∷ frame m6 ∷ []) [])
      ≡ (
        link fp_c fp_h [] (m1 ∷ m3 ∷ m5 ∷ []),
        ok (record { peer = public c host; caps = granted; sas = words }),
      )
  unfolding authenticate_as_controller
  controller_run =
      after-eq _ (fingerprints-link fp_c fp_h _ _)
      ∙ after-eq _ (send-link fp_c fp_h m1 _ _)
      ∙ after-eq _ (
          receive-link fp_c fp_h k.hello (code hello_ack) 0 (hello_of c host nonce_h fp_h) _ _
            (reads.hello _))
      ∙ after-eq _ (parse_identity_ok c law host _ host_derived)
      ∙ after-eq _ (lift_ok _ nonce_h _ (to_array_ok 32 nonce_h sized_h))
      ∙ after-eq _ (assert_ok _ _ _ (bytes_eq_refl fp_h))
      ∙ after-eq _
          (lift_ok (or_else bad_pin (start c session_id pin.digits random_c)) e _ (rw started refl))
      ∙ after-eq _ (send-link fp_c fp_h m3 _ _)
      ∙ after-eq _ (
          receive-link fp_c fp_h k.pake (code auth_response) 1
            (record { message = out; confirm = some (confirm c key (codes "host") session_id) }) _ _
            (reads.pake _))
      ∙ after-eq _ (lift_ok (or_else bad_pin (finish e out)) key _ (rw finished refl))
      ∙ after-eq _ (assert_ok _ _ _ (tag_matches_self c law key (codes "host") session_id))
      ∙ after-eq _ (send-link fp_c fp_h m5 _ _)
      ∙ after-eq _ (
          receive-link fp_c fp_h k.ready (code session_ready) 2 (ready_of granted words) _ _
            reads.ready)
      ∙ ap (λ (a : Authenticated). (link fp_c fp_h [] (m1 ∷ m3 ∷ m5 ∷ []), ok a))
          (result_eq (public c host)
            (ap from_names (ready_of-caps granted words) ∙ from_names-to_names granted)
            (ap (λ t. short_authentication_string c t session_id) same_transcript))

  pub host_run :
      is_usable pin now_ms ≡ true
      → authenticate_as_host c k session_id host pin granted now_ms nonce_h random_h
          (link fp_h fp_c (frame m1 ∷ frame m3 ∷ frame m5 ∷ []) [])
        ≡ (
          link fp_h fp_c [] (m2 ∷ m4 ∷ m6 ∷ []),
          ok (record { peer = public c controller; caps = granted; sas = words }),
        )
  unfolding authenticate_as_host host_pake host_grant
  host_run usable =
      let p : BindingProof = record {
        role = PeerRole.controller;
        identity = public c controller;
        signature = (prove c bind_c controller).signature;
      } in
      after-eq _ (fingerprints-link fp_h fp_c _ _)
      ∙ after-eq _ (
          receive-link fp_h fp_c k.hello (code hello) 0 (hello_of c controller nonce_c fp_c) _ _
            (reads.hello _))
      ∙ after-eq _ (parse_identity_ok c law controller _ controller_derived)
      ∙ after-eq _ (lift_ok _ nonce_c _ (to_array_ok 32 nonce_c sized_c))
      ∙ after-eq _ (assert_ok _ _ _ (bytes_eq_refl fp_c))
      ∙ after-eq _ (send-link fp_h fp_c m2 _ _)
      ∙ after-eq _ (
          receive-link fp_h fp_c k.pake (code auth_request) 1
            (record { message = e.outbound; confirm = none }) _ _ (reads.pake _))
      ∙ after-eq _ (
          lift_ok
            (or_else bad_pin
              (respond c e.outbound now_ms random_h
                (record { session_id = session_id; pin = pin })).1)
            (out, key) _ (rw responded refl))
      ∙ after-eq _ (send-link fp_h fp_c m4 _ _)
      ∙ after-eq _ (
          receive-link fp_h fp_c k.confirm (code auth_confirm) 2
            (record {
              confirm = confirm c key (codes "controller") session_id;
              signature = (prove c bind_c controller).signature;
            })
            _ _ (reads.confirm _))
      ∙ after-eq _ (assert_ok _ _ _ (tag_matches_self c law key (codes "controller") session_id))
      ∙ after-eq _
          (lift_ok _ (prove c bind_c controller).signature _ (to_array_ok 64 _ signature_sized))
      ∙ after-eq _ (
          lift_ok (or_else binding_failed (Binding.verify c bind_h p none)) tt _
            (rw proof_verified refl))
      ∙ after-eq _ (send-link fp_h fp_c m6 _ _)
