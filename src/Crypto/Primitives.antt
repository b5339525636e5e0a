-- ===== src/Crypto/Primitives.antt =====
-- The cryptographic crates that crates/rda-crypto calls, as a parameter of the model, with the
-- behaviour that their documentation states. Keys, digests and signatures are byte strings.
use remote.Prelude.{ℕ, List, ◌≡◌, ◌<◌, Bool, true, Option, some, String, length, All}

pub record TokenClaims : Type 0 where
  pub v : ℕ
  pub sub : List ℕ
  pub iss : List ℕ
  pub iat : ℕ
  pub exp : ℕ
  pub jti : List ℕ
  pub caps : List String

-- A SPAKE2 exchange that has been started: the message to send, and what the peer's message gives.
pub record Exchange : Type 0 where
  pub outbound : List ℕ
  pub finish : List ℕ → Option (List ℕ)

pub record Primitives : Type 0 where
  pub sha256 : List ℕ → List ℕ
  -- data_encoding over the Crockford alphabet.
  pub base32 : List ℕ → List ℕ
  -- ed25519_dalek.
  pub verifying_key : List ℕ → List ℕ
  pub is_point : List ℕ → Bool
  pub sign : List ℕ → List ℕ → List ℕ
  pub verify_strict : List ℕ → List ℕ → List ℕ → Bool
  -- base64, without padding.
  pub b64_encode : List ℕ → List ℕ
  pub b64_decode : List ℕ → Option (List ℕ)
  -- ciborium with the derived serialisers of the claims.
  pub into_writer : TokenClaims → Option (List ℕ)
  pub from_reader : List ℕ → Option TokenClaims
  -- spake2: the password, both identities and the random scalar.
  pub start_a : List ℕ → List ℕ → List ℕ → ℕ → Exchange
  pub start_b : List ℕ → List ℕ → List ℕ → ℕ → Exchange
  -- hkdf over SHA-256: the salt, the key material, the label and the length.
  pub hkdf : List ℕ → List ℕ → List ℕ → ℕ → List ℕ

-- Claims that CBOR carries: numbers of their widths and arrays of their lengths.
pub record IsEncodable (t : TokenClaims) : Type 0 where
  pub v : t.v < 256
  pub sub : length t.sub ≡ 32
  pub iss : All (λ b. b < 128) t.iss
  pub iat : t.iat < 18446744073709551616
  pub exp : t.exp < 18446744073709551616
  pub jti : length t.jti ≡ 16

-- What is documented of the crates.
pub record IsLawful (c : Primitives) : Type 0 where
  pub verify-sign : (k m : List ℕ) → c.verify_strict (c.verifying_key k) m (c.sign k m) ≡ true
  pub length-sign : (k m : List ℕ) → length (c.sign k m) ≡ 64
  pub length-verifying_key : (k : List ℕ) → length (c.verifying_key k) ≡ 32
  pub is_point-verifying_key : (k : List ℕ) → c.is_point (c.verifying_key k) ≡ true
  pub length-sha256 : (m : List ℕ) → length (c.sha256 m) ≡ 32
  pub base32_ascii : (b : List ℕ) → All (λ x. x < 128) (c.base32 b)
  pub decode-encode : (b : List ℕ) → c.b64_decode (c.b64_encode b) ≡ some b
  pub reader-writer :
      (t : TokenClaims) (b : List ℕ)
      → IsEncodable t
      → c.into_writer t ≡ some b
      → c.from_reader b ≡ some t
  -- Both sides derive the same 32-byte key from the same password and identities.
  pub finish_a :
      (w a b : List ℕ) (x y : ℕ)
      → (c.start_a w a b x).finish (c.start_b w a b y).outbound
        ≡ (c.start_b w a b y).finish (c.start_a w a b x).outbound
  pub finish_b :
      (w a b : List ℕ) (x y : ℕ)
      → (k : List ℕ) × ((c.start_b w a b y).finish (c.start_a w a b x).outbound ≡ some k)
        × (length k ≡ 32)
