-- ===== src/Tests/Toy.antt =====
-- Cryptography that is lawful and protects nothing: every hash and signature is a sum.
use remote.Prelude.{
  subst, ℕ, zero, suc, List, [], ◌∷◌, ◌++◌, ◌≡◌, ◌+◌, ◌%◌, refl, true, Option, none, some, String,
  length, take, drop, replicate, bytes_eq, bytes_eq_refl, take-length-append, drop-length-append,
  arith,
}
use remote.Crypto.Primitives.{Primitives, TokenClaims, Exchange, IsLawful}
use remote.Session.Auth.Link.{Codecs, PakeBody, ReadyBody, AreLawful}

abbrev sum : List ℕ → ℕ
sum [] = 0
sum (x ∷ xs) = x + sum xs

abbrev head : List ℕ → ℕ
head [] = 0
head (x ∷ xs) = x

-- Two lists as one, and back.
abbrev pack : List ℕ → List ℕ → List ℕ
pack a b = length a ∷ (a ++ b)

abbrev unpack : List ℕ → List ℕ × List ℕ
unpack [] = ([], [])
unpack (n ∷ r) = (take n r, drop n r)

-- Claims without capabilities, which are texts.
abbrev write_claims : List String → TokenClaims → Option (List ℕ)
write_claims [] t = some (t.v ∷ t.iat ∷ t.exp ∷ pack t.sub (pack t.iss t.jti))
write_claims (n ∷ ns) t = none

abbrev read_claims : List ℕ → Option TokenClaims
read_claims (v ∷ iat ∷ exp ∷ r) = some (record {
  v = v;
  sub = (unpack r).0;
  iss = (unpack (unpack r).1).0;
  iat = iat;
  exp = exp;
  jti = (unpack (unpack r).1).1;
  caps = [];
})
read_claims (v ∷ iat ∷ []) = none
read_claims (v ∷ []) = none
read_claims [] = none

written :
    (t : TokenClaims)
    → read_claims (t.v ∷ t.iat ∷ t.exp ∷ pack t.sub (pack t.iss t.jti))
      ≡ some (record t { caps = [] })
written t =
    rw
      (
        take-length-append t.sub (pack t.iss t.jti),
        drop-length-append t.sub (pack t.iss t.jti),
        take-length-append t.iss t.jti,
        drop-length-append t.iss t.jti,
      )
      refl

claims_law :
    (caps : List String) (t : TokenClaims) (b : List ℕ)
    → write_claims caps t ≡ some b
    → read_claims b ≡ some (record t { caps = caps })
claims_law [] t b h =
    let same : t.v ∷ t.iat ∷ t.exp ∷ pack t.sub (pack t.iss t.jti) ≡ b = cc in
    subst (λ z. read_claims z ≡ some (record t { caps = [] })) same (written t)
claims_law (n ∷ ns) t b h = absurd cc

abbrev toy_exchange : List ℕ → Exchange
toy_exchange w = record { outbound = w; finish = λ m. some (replicate 32 (sum w)) }

abbrev pub toy : Primitives
toy = record {
  sha256 = λ m. replicate 32 (sum m);
  base32 = λ b. replicate 13 (48 + head b % 10);
  verifying_key = λ k. replicate 32 (sum k);
  is_point = λ b. true;
  sign = λ k m. replicate 64 (sum k + sum m);
  verify_strict = λ k m s. bytes_eq s (replicate 64 (head k + sum m));
  b64_encode = λ b. b;
  b64_decode = λ s. some s;
  into_writer = λ t. write_claims t.caps t;
  from_reader = read_claims;
  start_a = λ w a b x. toy_exchange w;
  start_b = λ w a b y. toy_exchange w;
  hkdf = λ s k l n. replicate n (sum k % 256);
}

pub toy-IsLawful : IsLawful toy
toy-IsLawful = record {
  verify-sign = λ k m. bytes_eq_refl (replicate 64 (sum k + sum m));
  length-sign = λ k m. refl;
  length-verifying_key = λ k. refl;
  is_point-verifying_key = λ k. refl;
  length-sha256 = λ m. refl;
  base32_ascii = λ b. omega arith;
  decode-encode = λ b. refl;
  reader-writer = λ t b enc h. claims_law t.caps t b h;
  finish_a = λ w a b x y. refl;
  finish_b = λ w a b x y. (replicate 32 (sum w), refl, refl);
}

abbrev write_pake : List ℕ → Option (List ℕ) → List ℕ
write_pake m none = 0 ∷ m
write_pake m (some t) = 1 ∷ pack m t

abbrev read_pake : List ℕ → Option PakeBody
read_pake [] = none
read_pake (zero ∷ m) = some (record { message = m; confirm = none })
read_pake (suc n ∷ r) = some (record { message = (unpack r).0; confirm = some (unpack r).1 })

-- The codecs, at one body of the last message.
abbrev pub codecs : ReadyBody → Codecs
codecs fixed = record {
  hello = record {
    into_writer = λ t. pack t.pubkey (pack t.nonce t.fingerprint);
    from_reader = λ b. some (record {
      pubkey = (unpack b).0;
      nonce = (unpack (unpack b).1).0;
      fingerprint = (unpack (unpack b).1).1;
    });
  };
  pake = record { into_writer = λ t. write_pake t.message t.confirm; from_reader = read_pake };
  confirm = record {
    into_writer = λ t. pack t.confirm t.signature;
    from_reader = λ b. some (record { confirm = (unpack b).0; signature = (unpack b).1 });
  };
  ready = record { into_writer = λ t. []; from_reader = λ b. some fixed };
}

pake_law :
    (m : List ℕ) (o : Option (List ℕ))
    → read_pake (write_pake m o) ≡ some (record { message = m; confirm = o })
pake_law m none = refl
pake_law m (some t) = rw (take-length-append m t, drop-length-append m t) refl

pub codecs-AreLawful : (fixed : ReadyBody) → AreLawful (codecs fixed) fixed
codecs-AreLawful fixed = record {
  hello = λ t.
      rw
        (
          take-length-append t.pubkey (pack t.nonce t.fingerprint),
          drop-length-append t.pubkey (pack t.nonce t.fingerprint),
          take-length-append t.nonce t.fingerprint,
          drop-length-append t.nonce t.fingerprint,
        )
        refl;
  pake = λ t. pake_law t.message t.confirm;
  confirm = λ t.
      rw (take-length-append t.confirm t.signature, drop-length-append t.confirm t.signature) refl;
  ready = refl;
}
