-- ===== src/Crypto/Token/RoundTrip.antt =====
-- token.rs: a token that was issued is accepted until it ends or is revoked.
use remote.Prelude.{
  ltb, Option, sym, ap, zero, suc, subst, ℕ, List, [], ◌∷◌, ◌++◌, ◌≡◌, ◌+◌, ◌<◌, ◌≤◌, ok, true,
  false, refl, none, some, arith, take, length, ◌-◌, ◌||◌, All, length-append, take-length-append,
  drop-length-append, bytes_eq_refl,
}
use remote.Proto.Caps.{SessionCaps}
use remote.Crypto.Primitives.{Primitives, TokenClaims, IsLawful, IsEncodable}
use remote.Crypto.Identity
use remote.Crypto.DeviceId.{device_id_from_pubkey}
use remote.Crypto.Identity.{Identity, PublicIdentity, public, from_signing_key, sign}
use remote.Crypto.Token.{
  TokenStore, AccessToken, verify, verify_raw, verify_signed, accept_claims, check_claims,
  is_revoked, signing_input, issue, encode, claims_of, sign_claims, max_token_bytes,
}

All-take : (n : ℕ) (xs : List ℕ) → All (λ x. x < 128) xs → All (λ x. x < 128) (take n xs)
All-take zero xs h = tt
All-take (suc n) [] h = tt
All-take (suc n) (x ∷ xs) h = (h.0, All-take n xs h.1)

module _ (c : Primitives) (law : IsLawful c) (k : List ℕ) where
  abbrev pub issuer : Identity
  unfolding from_signing_key
  issuer = from_signing_key c k

  device_id_ascii : All (λ x. x < 128) issuer.device_id
  unfolding from_signing_key device_id_from_pubkey
  device_id_ascii = All-take 12 _ (law.base32_ascii _)

  module _ (subject : PublicIdentity) (caps : SessionCaps) (now lifetime : ℕ) (jti : List ℕ)
      (key_length : length subject.key ≡ 32) (jti_length : length jti ≡ 16)
      (no_overflow : now + lifetime < 18446744073709551616) where
    claims_of-IsEncodable : IsEncodable (claims_of c issuer subject caps now lifetime jti)
    unfolding claims_of
    claims_of-IsEncodable = record {
      v = omega arith;
      sub = key_length;
      iss = device_id_ascii;
      iat = omega arith;
      exp = omega arith;
      jti = jti_length;
    }

    -- The claims' checks hold of what `issue` writes.
    check_claims-claims_of :
        (store : TokenStore) (later : ℕ)
        → lifetime ≤ 2592000
        → later < now + lifetime
        → is_revoked store jti ≡ false
        → check_claims store (claims_of c issuer subject caps now lifetime jti) issuer subject later
          ≡ ok tt
    unfolding claims_of check_claims
    check_claims-claims_of store later short early kept =
        rw (bytes_eq_refl, bytes_eq_refl) (ground arith)

    abbrev claims : TokenClaims
    claims = claims_of c issuer subject caps now lifetime jti

    -- What `issue` returns.
    abbrev Issued : AccessToken → Type 0
    Issued t =
        (t.claims ≡ claims)
        × (c.into_writer claims ≡ some t.body)
        × (t.signature ≡ c.sign k (signing_input t.body))

    sign_claims_sound :
        (w : Option (List ℕ)) (t : AccessToken)
        → c.into_writer claims ≡ w
        → sign_claims c issuer claims w ≡ ok t
        → Issued t
    unfolding sign_claims sign from_signing_key
    sign_claims_sound none t e h = absurd cc
    sign_claims_sound (some body) t e h =
        let same : record {
          claims = claims;
          signature = c.sign k (signing_input body);
          body = body;
        }
            ≡ t =
          ground arith in
        subst Issued same (refl, e, refl)

    issue_sound : (t : AccessToken) → issue c issuer subject caps now lifetime jti ≡ ok t → Issued t
    unfolding issue
    issue_sound t h = sign_claims_sound (c.into_writer claims) t refl (ground arith)

    module _ (t : AccessToken) (issued : issue c issuer subject caps now lifetime jti ≡ ok t)
        (store : TokenStore) (later : ℕ) (short : lifetime ≤ 2592000)
        (early : later < now + lifetime) (kept : is_revoked store jti ≡ false) where
      accepted :
          accept_claims c store issuer subject later t.body t.signature (c.from_reader t.body)
          ≡ ok t
      unfolding accept_claims
      accepted =
          let (same, written, signed) = issue_sound t issued in
          let current : check_claims store claims issuer subject later ≡ ok tt =
            check_claims-claims_of store later short early kept in
          rw (law.reader-writer claims t.body claims_of-IsEncodable written, accept_claims, current)
            (ap
              (λ (x : TokenClaims).
                ok (record { claims = x; signature = t.signature; body = t.body }))
              (sym same))

      verify_signed-ok : verify_signed c store issuer subject later t.body t.signature ≡ ok t
      unfolding verify_signed Identity.verify public from_signing_key
      verify_signed-ok =
          let (same, written, signed) = issue_sound t issued in
          let valid : c.verify_strict (c.verifying_key k) (signing_input t.body) t.signature
              ≡ true =
            rw (signed, law.verify-sign) refl in
          rw (verify_signed, valid) accepted

      length-body : length (t.body ++ t.signature) ≡ length t.body + 64
      length-body =
          let (same, written, signed) = issue_sound t issued in
          rw (signed, length-append) (omega (arith, law.length-sign k (signing_input t.body)))

      -- A token that `issue` returned for a device is accepted from that device, until it ends or
      -- is revoked, if its encoding is within the limit of 4096 bytes.
      pub verify-issue :
          1 ≤ length t.body
          → length t.body + 64 ≤ max_token_bytes
          → length (encode c t) ≤ max_token_bytes
          → verify c store (encode c t) issuer subject later ≡ ok t
      unfolding verify verify_raw encode
      verify-issue full fits within =
          let l = length-body in
          let cut : length (t.body ++ t.signature) - 64 ≡ length t.body = omega arith in
          let small : ltb max_token_bytes (length (c.b64_encode (t.body ++ t.signature))) ≡ false =
            ground arith in
          let sized : (ltb (length (t.body ++ t.signature)) 65
                || ltb max_token_bytes (length (t.body ++ t.signature)))
              ≡ false =
            ground arith in
          rw
            (
              small,
              law.decode-encode,
              verify_raw,
              sized,
              cut,
              take-length-append t.body t.signature,
              drop-length-append t.body t.signature,
            )
            verify_signed-ok
