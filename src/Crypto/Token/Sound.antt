-- ===== src/Crypto/Token/Sound.antt =====
-- token.rs: what an accepted token guarantees.
use remote.Prelude.{
  take, drop, length, ◌-◌, Result-cases, ℕ, List, ◌≡◌, ◌+◌, ◌<◌, ◌≤◌, ok, true, false, refl,
  Bool-cases, none, some, Option-cases, Result-cases, subst, inl, inr, arith,
}
use remote.Prelude.Bytes.{bytes_eq_iff}
use remote.Crypto.Primitives.{Primitives, TokenClaims}
use remote.Crypto.Identity
use remote.Crypto.Identity.{Identity, PublicIdentity, public}
use remote.Crypto.Token.{
  Option, some, TokenStore, AccessToken, verify, verify_raw, verify_signed, accept_claims,
  check_claims, is_revoked, signing_input,
}

-- What the claims of an accepted token satisfy.
pub record IsCurrent (store : TokenStore) (t : TokenClaims) (host : Identity)
    (peer : PublicIdentity) (now : ℕ) : Type 0 where
  pub version : t.v ≡ 1
  pub issuer : t.iss ≡ host.device_id
  pub subject : t.sub ≡ peer.key
  pub lifetime : t.exp ≤ t.iat + 2592000
  pub alive : now < t.exp
  pub kept : is_revoked store t.jti ≡ false

check_claims_sound :
    (store : TokenStore) (t : TokenClaims) (host : Identity) (subject : PublicIdentity) (now : ℕ)
    → check_claims store t host subject now ≡ ok tt
    → IsCurrent store t host subject now
unfolding check_claims
check_claims_sound store t host subject now h =
    ground (arith, bytes_eq_iff t.iss host.device_id, bytes_eq_iff t.sub subject.key)

-- What an accepted token is: claims that the host signed.
pub record IsSigned (c : Primitives) (host : Identity) (t : AccessToken) : Type 0 where
  pub signature :
      c.verify_strict (c.verifying_key host.signing_key) (signing_input t.body) t.signature ≡ true
  pub claims : c.from_reader t.body ≡ some t.claims

module _ (c : Primitives) (store : TokenStore) (host : Identity) (subject : PublicIdentity)
    (now : ℕ) where
  -- The token holds what was checked.
  abbrev Holds : List ℕ → List ℕ → AccessToken → Type 0
  Holds body signature t =
      (t.body ≡ body)
      × (t.signature ≡ signature)
      × (c.from_reader body ≡ some t.claims)
      × IsCurrent store t.claims host subject now

  accept_claims_sound :
      (body signature : List ℕ) (claims : Option TokenClaims) (t : AccessToken)
      → c.from_reader body ≡ claims
      → accept_claims c store host subject now body signature claims ≡ ok t
      → Holds body signature t
  unfolding accept_claims
  accept_claims_sound body signature none t read h = absurd cc
  accept_claims_sound body signature (some claims) t read h =
      elim (Result-cases (check_claims store claims host subject now)) [
        | inl (u, e) ↦
            let current : IsCurrent store claims host subject now =
              check_claims_sound store claims host subject now (ground arith) in
            let same : record { claims = claims; signature = signature; body = body } ≡ t =
              ground arith in
            subst (Holds body signature) same (refl, refl, read, current)
        | inr (x, e) ↦ absurd (ground arith)
      ]

  verify_signed_sound :
      (body signature : List ℕ) (t : AccessToken)
      → verify_signed c store host subject now body signature ≡ ok t
      → IsSigned c host t × IsCurrent store t.claims host subject now
  unfolding verify_signed Identity.verify public
  verify_signed_sound body signature t h =
      elim (Bool-cases
        (c.verify_strict (c.verifying_key host.signing_key) (signing_input body) signature)) [
          | inl e ↦
              let (b, s, r, current) =
                accept_claims_sound body signature (c.from_reader body) t refl (ground arith) in
              (record { signature = rw (b, s) e; claims = rw b r }, current)
          | inr e ↦ absurd (ground arith)
        ]

  verify_raw_sound :
      (raw : List ℕ) (t : AccessToken)
      → verify_raw c store host subject now raw ≡ ok t
      → IsSigned c host t × IsCurrent store t.claims host subject now
  unfolding verify_raw
  verify_raw_sound raw t h =
      verify_signed_sound (take (length raw - 64) raw) (drop (length raw - 64) raw) t (ground arith)

  -- An accepted token was signed by this host, and its claims name this host and this device, are
  -- of a lifetime of 30 days at most, are not over and not revoked.
  pub accepted_token_sound :
      (encoded : List ℕ) (t : AccessToken)
      → verify c store encoded host subject now ≡ ok t
      → IsSigned c host t × IsCurrent store t.claims host subject now
  unfolding verify
  accepted_token_sound encoded t h = elim (Option-cases (c.b64_decode encoded)) [
    | inl e ↦ absurd (ground arith)
    | inr (raw, e) ↦ verify_raw_sound raw t (ground arith)
  ]
