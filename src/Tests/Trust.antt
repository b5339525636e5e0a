-- ===== src/Tests/Trust.antt =====
-- One host and one controller with the toy cryptography: identities, proofs, tokens and PINs.
use remote.Prelude.{
  inl, inr, bytes_eq, false, none, true, ℕ, List, [], ◌∷◌, ◌≡◌, ◌≢◌, ◌↔◌, refl, Option, some, ok,
  length, replicate, arith,
}
use remote.Prelude.Bytes.{insert, lookup, codes}
use remote.Proto.Caps.{to_names, no_caps}
use remote.Crypto.DeviceId.{IsId, IsSymbol, parse, grouped, device_id_from_pubkey}
use remote.Crypto.DeviceId.Text.{parse-grouped}
use remote.Crypto.Identity.{
  Identity, PublicIdentity, AddressBook, PeerTrust, from_signing_key, public, check_and_pin, sign,
}
use remote.Crypto.Identity.Trust.{
  IsDerived, IsSelfNamed, trusted_iff, key_changed-collision, check_and_pin-IsSelfNamed,
}
use remote.Crypto.Token
use remote.Crypto.Token.{
  AccessToken, issue, encode, sign_claims, claims_of, signing_input, is_revoked,
}
use remote.Crypto.Token.Sound.{IsSigned, IsCurrent, accepted_token_sound}
use remote.Crypto.Token.RoundTrip.{verify-issue, issuer}
use remote.Crypto.Binding
use remote.Crypto.Binding.{BindingVerifier, PeerRole, prove}
use remote.Crypto.Binding.Laws.{IsBound, IsPaired, verified_iff}
use remote.Crypto.Binding.Unambiguous.{Bound, IsSized, binding_input-injective}
use remote.Crypto.Pake.{
  PinVerifier, SessionPin, finish, respond, exchange_of, is_usable, all_digits,
}
use remote.Crypto.Pake.Agreement.{agreement, counted, start_accepts}
use remote.Tests.Toy.{toy, toy-IsLawful}

-- A digit and a letter.
seven : IsSymbol 55
seven = inl (omega arith, omega arith)

kay : IsSymbol 75
kay = inr (omega arith, omega arith, omega arith, omega arith, omega arith, omega arith)

abbrev shown : List ℕ
shown = 75 ∷ replicate 11 55

shown-IsId : IsId shown
shown-IsId = record {
  twelve = refl;
  symbols = (
    kay,
    (
      seven,
      (seven, (seven, (seven, (seven, (seven, (seven, (seven, (seven, (seven, (seven, tt)))))))))),
    ),
  );
}

parse-grouped_example : parse (grouped shown) ≡ ok shown
parse-grouped_example = parse-grouped shown shown-IsId

-- Two peers whose keys the toy hash does not tell apart.
abbrev pub controller : Identity
unfolding from_signing_key device_id_from_pubkey
controller = from_signing_key toy (3 ∷ [])

abbrev pub viewer : PublicIdentity
unfolding public
viewer = public toy controller

abbrev twin : PublicIdentity
twin = record viewer { key = 2 ∷ 4 ∷ replicate 30 3 }

abbrev book : AddressBook
unfolding check_and_pin
book = (check_and_pin [] viewer).0

trusted_iff_example :
    ((check_and_pin book viewer).1 ≢ PeerTrust.key_changed)
    ↔ (lookup viewer.device_id (check_and_pin book viewer).0 ≡ some viewer.key)
trusted_iff_example = trusted_iff book viewer

viewer-IsDerived : IsDerived toy viewer
unfolding public from_signing_key device_id_from_pubkey controller
viewer-IsDerived = refl

empty-IsSelfNamed : IsSelfNamed toy []
unfolding lookup
empty-IsSelfNamed id key h = let none_is_some : none ≡ some key = h in absurd cc

twin-IsDerived : IsDerived toy twin
unfolding device_id_from_pubkey from_signing_key public
twin-IsDerived = refl

twin_changed : (check_and_pin book twin).1 ≡ PeerTrust.key_changed
unfolding check_and_pin book viewer lookup insert bytes_eq public controller from_signing_key
    device_id_from_pubkey
twin_changed = refl

key_changed-collision_example :
    (key : List ℕ) × (key ≢ twin.key)
    × (device_id_from_pubkey toy key ≡ device_id_from_pubkey toy twin.key)
unfolding book check_and_pin
key_changed-collision_example =
    key_changed-collision toy book twin
      (check_and_pin-IsSelfNamed toy [] viewer empty-IsSelfNamed viewer-IsDerived) twin-IsDerived
      twin_changed

-- A handshake, seen from the host and from the controller.
abbrev pub seen_by_host : BindingVerifier
seen_by_host = record {
  session_id = codes "session";
  nonce_controller = replicate 32 1;
  nonce_host = replicate 32 2;
  fp_controller = replicate 32 3;
  fp_host = replicate 32 4;
  local_role = PeerRole.host;
}

abbrev pub seen_by_controller : BindingVerifier
seen_by_controller = record seen_by_host { local_role = PeerRole.controller }

pub seen-IsPaired : IsPaired seen_by_host seen_by_controller
unfolding Binding.peer
seen-IsPaired = record {
  session_id = refl;
  nonce_controller = refl;
  nonce_host = refl;
  fp_controller = refl;
  fp_host = refl;
  role = refl;
}

verified_iff_example :
    (Binding.verify toy seen_by_host
        (prove toy seen_by_controller controller)
        (some controller.device_id)
      ≡ ok tt)
    ↔ IsBound toy seen_by_host (prove toy seen_by_controller controller) controller.device_id
verified_iff_example =
    verified_iff toy seen_by_host (prove toy seen_by_controller controller) controller.device_id

abbrev bound : Bound
bound = record {
  session_id = codes "session";
  nonce_controller = replicate 32 1;
  nonce_host = replicate 32 2;
  fp_controller = replicate 32 3;
  fp_host = replicate 32 4;
  role = PeerRole.host;
}

bound-IsSized : IsSized bound
bound-IsSized = record {
  nonce_controller = refl;
  nonce_host = refl;
  fp_controller = refl;
  fp_host = refl;
}

binding_input-injective_example : bound ≡ bound
binding_input-injective_example =
    binding_input-injective bound bound bound-IsSized bound-IsSized refl

-- Another device.
abbrev pub thief : Identity
unfolding from_signing_key device_id_from_pubkey
thief = from_signing_key toy (6 ∷ [])

pub other_key : viewer.key ≢ (public toy thief).key
unfolding public controller viewer thief
other_key e = absurd cc

-- A token for the viewer.
abbrev or_empty : Option (List ℕ) → List ℕ
or_empty none = []
or_empty (some b) = b

abbrev pub host : Identity
host = issuer toy toy-IsLawful (5 ∷ [])

abbrev pub the_token : AccessToken
unfolding claims_of sign signing_input
the_token =
    let claims = claims_of toy host viewer no_caps 100 60 (replicate 16 1) in
    let body = or_empty (toy.into_writer claims) in
    record { claims = claims; signature = sign toy host (signing_input body); body = body }

the_token-issued : issue toy host viewer no_caps 100 60 (replicate 16 1) ≡ ok the_token
unfolding issue sign_claims the_token claims_of to_names
the_token-issued = refl

pub the_token-valid : Token.verify toy [] (encode toy the_token) host viewer 120 ≡ ok the_token
unfolding the_token encode viewer public controller is_revoked from_signing_key
    device_id_from_pubkey sign signing_input claims_of to_names
the_token-valid =
    verify-issue toy toy-IsLawful (5 ∷ []) viewer no_caps 100 60 (replicate 16 1) refl refl
      (omega arith) the_token the_token-issued [] 120 (omega arith) (omega arith) refl (omega arith)
      (omega arith) (omega arith)

verify-issue_example :
    Token.verify toy [] (encode toy the_token) (issuer toy toy-IsLawful (5 ∷ [])) viewer 110
    ≡ ok the_token
unfolding the_token encode viewer public controller is_revoked from_signing_key
    device_id_from_pubkey sign signing_input claims_of to_names
verify-issue_example =
    verify-issue toy toy-IsLawful (5 ∷ []) viewer no_caps 100 60 (replicate 16 1) refl refl
      (omega arith) the_token the_token-issued [] 110 (omega arith) (omega arith) refl (omega arith)
      (omega arith) (omega arith)

accepted_token_sound_example :
    IsSigned toy host the_token × IsCurrent [] the_token.claims host viewer 120
accepted_token_sound_example =
    accepted_token_sound toy [] host viewer 120 (encode toy the_token) the_token the_token-valid

-- The displayed PIN, and the round of the controller that reads it.
abbrev pub pin : SessionPin
pin = record { digits = codes "123456"; issued_ms = 0; attempts = 0; consumed = false }

abbrev verifier : PinVerifier
verifier = record { session_id = codes "session"; pin = pin }

pub pin-is_usable : is_usable pin 1000 ≡ true
unfolding is_usable
pin-is_usable = refl

pub pin-all_digits : all_digits pin.digits ≡ true
unfolding all_digits
pin-all_digits = refl

agreement_example :
    (key : List ℕ) × (respond toy (exchange_of toy verifier 8).outbound 1000 7 verifier
      ≡ (counted verifier, ok ((exchange_of toy verifier 7).outbound, key)))
    × (finish (exchange_of toy verifier 8) (exchange_of toy verifier 7).outbound ≡ ok key)
    × (length key ≡ 32)
unfolding exchange_of
agreement_example =
    agreement toy toy-IsLawful verifier 1000 7 8 (exchange_of toy verifier 8) pin-is_usable
      (start_accepts toy (codes "session") pin.digits 8 refl pin-all_digits)
