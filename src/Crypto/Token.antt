-- ===== src/Crypto/Token.antt =====
-- crates/rda-crypto/src/token.rs: access tokens for unattended sessions.
pub mod Sound
pub mod RoundTrip
use remote.Prelude.{
  drop, take, length, ℕ, List, [], ◌∷◌, ◌++◌, ◌+◌, ◌-◌, ◌%◌, ◌==◌, ◌||◌, ltb, leb, Bool, false,
  Option, none, some, Result, ok, err, not, if◌then◌else◌, bytes_eq,
}
use remote.Prelude.Bytes.{codes}
use remote.Proto.Caps.{SessionCaps, from_names, to_names}
use remote.Crypto.Primitives.{Primitives, TokenClaims}
use remote.Crypto.Identity
use remote.Crypto.Identity.{Identity, PublicIdentity, public, sign}

abbrev pub max_token_lifetime_s : ℕ
max_token_lifetime_s = 2592000

abbrev pub max_token_bytes : ℕ
max_token_bytes = 4096

abbrev pub token_domain : List ℕ
token_domain = codes "RDA-v1-token"

pub data TokenError : Type 0 where
  malformed_encoding malformed_body bad_signature wrong_issuer wrong_subject : TokenError
  expired revoked lifetime_too_long : TokenError
  unsupported_version : ℕ → TokenError

unfoldable pub session_caps : TokenClaims → SessionCaps
session_caps t = from_names t.caps

pub record AccessToken : Type 0 where
  pub claims : TokenClaims
  pub signature : List ℕ
  pub body : List ℕ

-- `revoked`: the identifiers of the tokens that are.
abbrev pub TokenStore : Type 0
TokenStore = List (List ℕ)

unfoldable pub is_revoked : TokenStore → List ℕ → Bool
is_revoked [] jti = false
is_revoked (r ∷ rest) jti = bytes_eq r jti || is_revoked rest jti

unfoldable pub revoke : TokenStore → List ℕ → TokenStore
unfolding is_revoked
revoke store jti = if is_revoked store jti then store else jti ∷ store

-- `revoked.remove(jti)`.
unfoldable pub remove_jti : TokenStore → List ℕ → TokenStore
remove_jti [] jti = []
remove_jti (r ∷ rest) jti = if bytes_eq r jti then remove_jti rest jti else r ∷ remove_jti rest jti

unfoldable pub prune_expired : TokenStore → List (List ℕ) → TokenStore
unfolding remove_jti
prune_expired store [] = store
prune_expired store (jti ∷ jtis) = prune_expired (remove_jti store jti) jtis

unfoldable pub signing_input : List ℕ → List ℕ
signing_input body = token_domain ++ 0 ∷ body

-- The claims' checks, after the signature's.
unfoldable pub check_claims :
    TokenStore → TokenClaims → Identity → PublicIdentity → ℕ → Result TokenError (Unit {0})
unfolding is_revoked
check_claims store t host expected_subject now_unix =
    if not (t.v == 1)
    then err (unsupported_version t.v)
    else if not (bytes_eq t.iss host.device_id)
    then err wrong_issuer
    else if not (bytes_eq t.sub expected_subject.key)
    then err wrong_subject
    else if ltb max_token_lifetime_s (t.exp - t.iat)
    then err lifetime_too_long
    else if leb t.exp now_unix
    then err expired
    else if is_revoked store t.jti
    then err revoked
    else ok tt

module _ (c : Primitives) where
  unfoldable pub encode : AccessToken → List ℕ
  encode t = c.b64_encode (t.body ++ t.signature)

  -- The claims that `issue` signs; `jti` is the random identifier.
  unfoldable pub claims_of : Identity → PublicIdentity → SessionCaps → ℕ → ℕ → List ℕ → TokenClaims
  claims_of i subject caps now_unix lifetime_s jti = record {
    v = 1;
    sub = subject.key;
    iss = i.device_id;
    iat = now_unix;
    exp = (now_unix + lifetime_s) % 18446744073709551616;
    jti = jti;
    caps = to_names caps;
  }

  unfoldable pub sign_claims :
      Identity → TokenClaims → Option (List ℕ) → Result TokenError AccessToken
  sign_claims i claims none = err malformed_body
  sign_claims i claims (some body) =
      ok (record { claims = claims; signature = sign c i (signing_input body); body = body })

  unfoldable pub issue :
      Identity → PublicIdentity → SessionCaps → ℕ → ℕ → List ℕ → Result TokenError AccessToken
  unfolding sign_claims claims_of
  issue i subject caps now_unix lifetime_s jti =
      if ltb max_token_lifetime_s lifetime_s
      then err lifetime_too_long
      else let claims = claims_of i subject caps now_unix lifetime_s jti in
        sign_claims i claims (c.into_writer claims)

  unfoldable pub accept_claims :
      TokenStore
      → Identity
      → PublicIdentity
      → ℕ
      → (body signature : List ℕ) → Option TokenClaims
      → Result TokenError AccessToken
  accept_claims store host expected_subject now_unix body signature none = err malformed_body
  accept_claims store host expected_subject now_unix body signature (some claims) =
      elim (check_claims store claims host expected_subject now_unix) [
        | err e ↦ err e
        | ok u ↦ ok (record { claims = claims; signature = signature; body = body })
      ]

  -- From the signature's check on; nothing of the body is read before it.
  unfoldable pub verify_signed :
      TokenStore
      → Identity
      → PublicIdentity
      → ℕ
      → (body signature : List ℕ) → Result TokenError AccessToken
  verify_signed store host expected_subject now_unix body signature =
      elim (Identity.verify c (public c host) (signing_input body) signature) [
        | err e ↦ err bad_signature
        | ok u ↦
            accept_claims store host expected_subject now_unix body signature (c.from_reader body)
      ]

  -- `raw.split_at(raw.len() - 64)`.
  unfoldable pub verify_raw :
      TokenStore → Identity → PublicIdentity → ℕ → List ℕ → Result TokenError AccessToken
  verify_raw store host expected_subject now_unix raw =
      if ltb (length raw) 65 || ltb max_token_bytes (length raw)
      then err malformed_encoding
      else verify_signed store host expected_subject now_unix (take (length raw - 64) raw)
          (drop (length raw - 64) raw)

  unfoldable pub verify :
      TokenStore → List ℕ → Identity → PublicIdentity → ℕ → Result TokenError AccessToken
  verify store encoded host expected_subject now_unix =
      if ltb max_token_bytes (length encoded)
      then err malformed_encoding
      else elim (c.b64_decode encoded) [
        | none ↦ err malformed_encoding
        | some raw ↦ verify_raw store host expected_subject now_unix raw
      ]
