-- ===== src/Session/Auth/Both.antt =====
-- auth.rs: the two sides, each fed with what the other sends, authenticate each other.
use remote.Prelude.{ℕ, List, [], ◌≡◌, true, Option, String, ok, length}
use remote.Proto.Caps.{SessionCaps}
use remote.Crypto.Primitives.{Primitives, IsLawful}
use remote.Crypto.Identity.{Identity, public}
use remote.Crypto.Identity.Trust.{IsDerived}
use remote.Crypto.Binding.{Fingerprint, PeerRole, new, transcript_hash}
use remote.Crypto.Sas.{short_authentication_string}
use remote.Crypto.Pake.{SessionPin, PinVerifier, is_usable, all_digits, exchange_of}
use remote.Crypto.Pake.Agreement.{agreement, counted, start_accepts}
use remote.Session.Auth.Link.{Codecs, AreLawful, Frame}
use remote.Session.Auth.Run.{ready_of, authenticate_as_controller, authenticate_as_host}
use remote.Session.Auth.Agreement.{link, delivered, controller_run, host_run}

-- Both sides end, each fed with the frames that the other one sends: each has the other's
-- identity, both have the granted capabilities and the same short authentication string. The PIN is
-- six digits and still usable, both read the same two fingerprints, and no frame is lost.
pub authenticate_both :
    (c : Primitives) (law : IsLawful c) (k : Codecs) (session_id : List ℕ)
    (controller host : Identity)
    → IsDerived c (public c controller)
    → IsDerived c (public c host)
    → (pin : SessionPin) (granted : SessionCaps) (now_ms : ℕ) (nonce_c nonce_h : List ℕ)
      (fp_c fp_h : Fingerprint) (random_c random_h : ℕ)
    → AreLawful k (
        ready_of granted (
          short_authentication_string c
            (transcript_hash c (new session_id PeerRole.host nonce_h nonce_c fp_h fp_c))
            session_id))
    → length nonce_c ≡ 32
    → length nonce_h ≡ 32
    → length pin.digits ≡ 6
    → all_digits pin.digits ≡ true
    → is_usable pin now_ms ≡ true
    → (from_controller : List Frame) × (from_host : List Frame) × (sas : Option (List String))
      × (authenticate_as_controller c k session_id controller pin.digits nonce_c random_c
            (link fp_c fp_h (delivered from_host) [])
          ≡ (
            link fp_c fp_h [] from_controller,
            ok (record { peer = public c host; caps = granted; sas = sas }),
          ))
      × (authenticate_as_host c k session_id host pin granted now_ms nonce_h random_h
            (link fp_h fp_c (delivered from_controller) [])
          ≡ (
            link fp_h fp_c [] from_host,
            ok (record { peer = public c controller; caps = granted; sas = sas }),
          ))
authenticate_both c law k session_id controller host dc dh pin granted now_ms nonce_c nonce_h fp_c
      fp_h random_c random_h reads sized_c sized_h six digits usable =
    let v : PinVerifier = record { session_id = session_id; pin = pin } in
    let started = start_accepts c session_id pin.digits random_c six digits in
    let (key, responded, finished, sized) =
      agreement c law v now_ms random_h random_c _ usable started in
    let out = (exchange_of c v random_h).outbound in
    (
      _,
      _,
      _,
      controller_run c law k session_id controller host dc dh pin granted now_ms nonce_c nonce_h
          fp_c fp_h random_c random_h reads sized_c sized_h _ (counted v) out key started responded
          finished,
      host_run c law k session_id controller host dc dh pin granted now_ms nonce_c nonce_h fp_c fp_h
          random_c random_h reads sized_c sized_h _ (counted v) out key started responded finished
          usable,
    )
