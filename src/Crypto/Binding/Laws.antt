-- ===== src/Crypto/Binding/Laws.antt =====
-- binding.rs: what a verified proof shows, and that the peer's own proof is verified.
use remote.Prelude.{
  ◌↔◌, ℕ, List, ◌≡◌, refl, true, none, some, ok, inl, inr, arith, Bool-cases, Result-cases,
  bytes_eq, bytes_eq_refl, bytes_eq→≡,
}
use remote.Crypto.Primitives.{Primitives, IsLawful}
use remote.Crypto.Identity
use remote.Crypto.Identity.{Identity, PublicIdentity, check_claims, public, sign}
use remote.Crypto.DeviceId.{DeviceId}
use remote.Crypto.Binding.{
  BindingVerifier, BindingProof, PeerRole, controller, host, peer, role_eq, binding_input, prove,
  verify, check_expected, check_signature,
}

role_eq→≡ : (a b : PeerRole) → role_eq a b ≡ true → a ≡ b
unfolding role_eq
role_eq→≡ controller controller h = refl
role_eq→≡ controller host h = absurd cc
role_eq→≡ host controller h = absurd cc
role_eq→≡ host host h = refl

role_eq_refl : (a : PeerRole) → role_eq a a ≡ true
unfolding role_eq
role_eq_refl controller = refl
role_eq_refl host = refl

check_expected-ok :
    (p : PublicIdentity) (id : DeviceId) → check_expected p (some id) ≡ ok tt → p.device_id ≡ id
unfolding check_expected check_claims
check_expected-ok p id h = elim (Bool-cases (bytes_eq p.device_id id)) [
  | inl e ↦ bytes_eq→≡ p.device_id id e
  | inr e ↦ absurd (ground arith)
]

check_expected_self : (p : PublicIdentity) → check_expected p (some p.device_id) ≡ ok tt
unfolding check_expected check_claims
check_expected_self p = rw (check_expected, check_claims, bytes_eq_refl p.device_id) refl

-- The message that a proof of the remote side signs.
abbrev pub remote_message : BindingVerifier → List ℕ
remote_message v =
    binding_input v.session_id v.nonce_controller v.nonce_host v.fp_controller v.fp_host
      (peer v.local_role)

-- A proof of the remote role, by the expected device, with its signature over the fingerprints
-- that this side observed.
pub record IsBound (c : Primitives) (v : BindingVerifier) (proof : BindingProof) (id : DeviceId)
    : Type 0 where
  pub role : proof.role ≡ peer v.local_role
  pub device : proof.identity.device_id ≡ id
  pub signed : c.verify_strict proof.identity.key (remote_message v) proof.signature ≡ true

-- Both sides of one handshake: `w` is the remote side of `v`.
pub record IsPaired (v w : BindingVerifier) : Type 0 where
  pub session_id : w.session_id ≡ v.session_id
  pub nonce_controller : w.nonce_controller ≡ v.nonce_controller
  pub nonce_host : w.nonce_host ≡ v.nonce_host
  pub fp_controller : w.fp_controller ≡ v.fp_controller
  pub fp_host : w.fp_host ≡ v.fp_host
  pub role : w.local_role ≡ peer v.local_role

module _ (c : Primitives) where
  check_signature-ok :
      (v : BindingVerifier) (proof : BindingProof)
      → check_signature c v proof ≡ ok tt
      → c.verify_strict proof.identity.key (remote_message v) proof.signature ≡ true
  unfolding check_signature Identity.verify
  check_signature-ok v proof h = ground arith

  check_signature_accepts :
      (v : BindingVerifier) (proof : BindingProof)
      → c.verify_strict proof.identity.key (remote_message v) proof.signature ≡ true
      → check_signature c v proof ≡ ok tt
  unfolding check_signature Identity.verify
  check_signature_accepts v proof h = ground arith

  -- A proof is verified for a device exactly when it is of the remote role, its identity is that
  -- device's and its signature covers the session, both nonces and both observed fingerprints.
  pub verified_iff :
      (v : BindingVerifier) (proof : BindingProof) (id : DeviceId)
      → (verify c v proof (some id) ≡ ok tt) ↔ IsBound c v proof id
  unfolding verify
  verified_iff v proof id = (
    λ h. elim (Bool-cases (role_eq proof.role (peer v.local_role))) [
      | inl e ↦ elim (Result-cases (check_expected proof.identity (some id))) [
        | inl (u, d) ↦ record {
          role = role_eq→≡ proof.role (peer v.local_role) e;
          device = check_expected-ok proof.identity id (ground arith);
          signed = check_signature-ok v proof (ground arith);
        }
        | inr (x, d) ↦ absurd (ground arith)
      ]
      | inr e ↦ absurd (ground arith)
    ],
    λ b.
        let role : role_eq proof.role (peer v.local_role) ≡ true =
          rw b.role (role_eq_refl (peer v.local_role)) in
        let device : check_expected proof.identity (some id) ≡ ok tt =
          rw (← b.device) (check_expected_self proof.identity) in
        rw (role, device) (check_signature_accepts v proof b.signed),
  )

  -- Without an expected device, the role and the signature suffice.
  pub verify-unnamed :
      (v : BindingVerifier) (proof : BindingProof)
      → proof.role ≡ peer v.local_role
      → c.verify_strict proof.identity.key (remote_message v) proof.signature ≡ true
      → verify c v proof none ≡ ok tt
  unfolding verify check_expected
  verify-unnamed v proof role signed =
      let same : role_eq proof.role (peer v.local_role) ≡ true =
        rw role (role_eq_refl (peer v.local_role)) in
      rw same (check_signature_accepts v proof signed)

  -- The proof that the remote side of the same handshake makes is verified for its device.
  pub verify-prove :
      (law : IsLawful c) (v w : BindingVerifier) (i : Identity)
      → IsPaired v w
      → verify c v (prove c w i) (some i.device_id) ≡ ok tt
  unfolding prove public sign
  verify-prove law v w i p = (verified_iff v (prove c w i) i.device_id).1 (record {
    role = p.role;
    device = refl;
    signed =
        rw (p.session_id, p.nonce_controller, p.nonce_host, p.fp_controller, p.fp_host, p.role)
          (law.verify-sign i.signing_key (remote_message v));
  })
