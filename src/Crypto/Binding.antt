-- ===== src/Crypto/Binding.antt =====
-- crates/rda-crypto/src/binding.rs: the signature that ties a session to its DTLS certificates.
pub mod Laws
pub mod Unambiguous
use remote.Prelude.{
  ℕ, List, [], ◌∷◌, ◌++◌, Bool, true, false, Option, none, some, Result, ok, err, not,
  if◌then◌else◌,
}
use remote.Prelude.Bytes.{codes}
use remote.Crypto.Primitives.{Primitives}
use remote.Crypto.DeviceId.{DeviceId}
use remote.Crypto.Identity.{Identity, PublicIdentity, IdentityError, check_claims, public, sign}
use remote.Crypto.Identity

abbrev pub binding_domain : List ℕ
binding_domain = codes "RDA-v1-binding"

pub data PeerRole : Type 0 where
  controller host : PeerRole

-- `self.peer()`.
unfoldable pub peer : PeerRole → PeerRole
peer controller = host
peer host = controller

-- `role as u8`.
unfoldable pub role_byte : PeerRole → ℕ
role_byte controller = 1
role_byte host = 2

unfoldable pub role_eq : PeerRole → PeerRole → Bool
role_eq controller controller = true
role_eq host host = true
role_eq controller host = false
role_eq host controller = false

-- The 32 bytes of a certificate's hash.
abbrev pub Fingerprint : Type 0
Fingerprint = List ℕ

unfoldable pub binding_input :
    (session_id nonce_controller nonce_host : List ℕ) (fp_controller fp_host : Fingerprint)
    → PeerRole
    → List ℕ
binding_input session_id nonce_controller nonce_host fp_controller fp_host role =
    binding_domain
    ++ (0 ∷ []
        ++ (session_id
            ++ (nonce_controller
                ++ (nonce_host ++ (fp_controller ++ (fp_host ++ role_byte role ∷ []))))))

pub record BindingProof : Type 0 where
  pub role : PeerRole
  pub identity : PublicIdentity
  pub signature : List ℕ

pub data BindingError : Type 0 where
  invalid_signature fingerprint_mismatch wrong_role identity_mismatch : BindingError
  identity : IdentityError → BindingError

pub record BindingVerifier : Type 0 where
  pub session_id : List ℕ
  pub nonce_controller : List ℕ
  pub nonce_host : List ℕ
  pub fp_controller : Fingerprint
  pub fp_host : Fingerprint
  pub local_role : PeerRole

-- `BindingVerifier::new`: local values and remote ones, put in the roles' places.
unfoldable pub new :
    List ℕ
    → PeerRole
    → (nonce_local nonce_remote : List ℕ) (fp_local fp_remote : Fingerprint) → BindingVerifier
new session_id controller nonce_local nonce_remote fp_local fp_remote = record {
  session_id = session_id;
  nonce_controller = nonce_local;
  nonce_host = nonce_remote;
  fp_controller = fp_local;
  fp_host = fp_remote;
  local_role = controller;
}
new session_id host nonce_local nonce_remote fp_local fp_remote = record {
  session_id = session_id;
  nonce_controller = nonce_remote;
  nonce_host = nonce_local;
  fp_controller = fp_remote;
  fp_host = fp_local;
  local_role = host;
}

-- The message that the side in `role` signs.
abbrev pub message_of : BindingVerifier → PeerRole → List ℕ
message_of v role =
    binding_input v.session_id v.nonce_controller v.nonce_host v.fp_controller v.fp_host role

-- The check of the identifier, if one is expected.
unfoldable pub check_expected : PublicIdentity → Option DeviceId → Result BindingError (Unit {0})
check_expected p none = ok tt
check_expected p (some id) = elim (check_claims p id) [
  | ok u ↦ ok tt
  | err e ↦ err identity_mismatch
]

module _ (c : Primitives) where
  unfoldable pub prove : BindingVerifier → Identity → BindingProof
  prove v i = record {
    role = v.local_role;
    identity = public c i;
    signature = sign c i (message_of v v.local_role);
  }

  -- The signature's check, the last of `verify`.
  unfoldable pub check_signature : BindingVerifier → BindingProof → Result BindingError (Unit {0})
  check_signature v proof =
      elim (Identity.verify c proof.identity (message_of v (peer v.local_role)) proof.signature) [
        | ok u ↦ ok tt
        | err e ↦ err invalid_signature
      ]

  unfoldable pub verify :
      BindingVerifier → BindingProof → Option DeviceId → Result BindingError (Unit {0})
  verify v proof expected_device_id =
      if not (role_eq proof.role (peer v.local_role))
      then err wrong_role
      else elim (check_expected proof.identity expected_device_id) [
        | err e ↦ err e
        | ok u ↦ check_signature v proof
      ]

  unfoldable pub transcript_hash : BindingVerifier → List ℕ
  transcript_hash v = c.sha256 (
      codes "RDA-v1-transcript"
      ++ (0 ∷ []
          ++ (v.session_id
              ++ (v.nonce_controller ++ (v.nonce_host ++ (v.fp_controller ++ v.fp_host))))))
