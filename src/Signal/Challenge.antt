-- ===== src/Signal/Challenge.antt =====
-- crates/rda-signal-server/src/auth.rs, with `Register` of crates/rda-proto/src/signaling.rs: a
-- registration answers a challenge once, in its time, by the key of the claimed identifier.
use remote.Prelude.{
  ℕ, List, [], ◌∷◌, ◌++◌, ◌≡◌, ◌≤◌, ◌-◌, ◌==◌, ◌||◌, ltb, Bool, true, false, Option, none, some,
  Result, ok, err, if◌then◌else◌, length, bytes_eq, inl, inr, Bool-cases, refl, sym, ap, subst, ◌∙◌,
  arith,
}
use remote.Prelude.Bytes.{codes, bytes_eq_iff}
use remote.Prelude.Stateful.{Stateful}
use remote.Crypto.Primitives.{Primitives}
use remote.Crypto.DeviceId.{DeviceId, device_id_from_pubkey}

pub data AuthError : Type 0 where
  bad_pubkey bad_signature_encoding bad_signature id_mismatch bad_nonce : AuthError

pub data Role : Type 0 where
  host controller both : Role

-- The fields that the check reads.
pub record Register : Type 0 where
  pub device_id : DeviceId
  pub pubkey : List ℕ
  pub sig : List ℕ
  pub role : Role

abbrev pub register_domain : List ℕ
register_domain = codes "RDA-v1-register"

unfoldable pub role_text : Role → List ℕ
role_text host = codes "host"
role_text controller = codes "controller"
role_text both = codes "both"

unfoldable pub signing_input : List ℕ → DeviceId → Role → List ℕ
unfolding role_text
signing_input nonce device_id role =
    register_domain ++ (0 ∷ [] ++ (nonce ++ (device_id ++ role_text role)))

abbrev pub nonce_ttl_ms : ℕ
nonce_ttl_ms = 60000

pub record Challenge : Type 0 where
  pub nonce : List ℕ
  pub issued_ms : ℕ
  pub spent : Bool

-- `Challenge::issue`, with the random nonce.
unfoldable pub issue : List ℕ → ℕ → Challenge
issue nonce now_ms = record { nonce = nonce; issued_ms = now_ms; spent = false }

-- `try_into` an array of so many bytes, or the error.
unfoldable pub decoded : Option (List ℕ) → ℕ → AuthError → Result AuthError (List ℕ)
decoded none n e = err e
decoded (some v) n e = if length v == n then ok v else err e

-- The message of docs/PROTOCOL.md: the domain, a zero byte, the nonce, the identifier, and the role
-- as the wire names it.
abbrev pub message : List ℕ → DeviceId → Role → List ℕ
message nonce device_id host = codes "RDA-v1-register" ++ 0 ∷ (nonce ++ (device_id ++ codes "host"))
message nonce device_id controller =
    codes "RDA-v1-register" ++ 0 ∷ (nonce ++ (device_id ++ codes "controller"))
message nonce device_id both = codes "RDA-v1-register" ++ 0 ∷ (nonce ++ (device_id ++ codes "both"))

signing_input_lem :
    (nonce : List ℕ) (device_id : DeviceId) (role : Role)
    → signing_input nonce device_id role ≡ message nonce device_id role
unfolding signing_input role_text
signing_input_lem nonce device_id host = refl
signing_input_lem nonce device_id controller = refl
signing_input_lem nonce device_id both = refl

decoded-ok :
    (o : Option (List ℕ)) (n : ℕ) (e : AuthError) (v : List ℕ)
    → decoded o n e ≡ ok v
    → (o ≡ some v) × (length v ≡ n)
unfolding decoded
decoded-ok none n e v h = absurd cc
decoded-ok (some w) n e v h =
    let same : w ≡ v = ground arith in
    let sized : length w ≡ n = ground arith in (ap some same, subst (λ l. length l ≡ n) same sized)

module _ (c : Primitives) where
  -- The checks of the key: its encoding, its signature and its identifier.
  unfoldable pub check_key :
      (nonce : List ℕ) → Register → (pubkey sig : List ℕ) → Result AuthError (List ℕ)
  check_key nonce reg pubkey sig =
      if c.is_point pubkey
      then (if c.verify_strict pubkey (signing_input nonce reg.device_id reg.role) sig
          then (if bytes_eq reg.device_id (device_id_from_pubkey c pubkey)
              then ok pubkey
              else err id_mismatch)
          else err bad_signature)
      else err bad_pubkey

  unfoldable pub check_sig :
      (nonce : List ℕ)
      → Register
      → (pubkey : List ℕ) → Result AuthError (List ℕ)
      → Result AuthError (List ℕ)
  check_sig nonce reg pubkey (err e) = err e
  check_sig nonce reg pubkey (ok sig) = check_key nonce reg pubkey sig

  unfoldable pub check_pubkey :
      (nonce : List ℕ) → Register → Result AuthError (List ℕ) → Result AuthError (List ℕ)
  check_pubkey nonce reg (err e) = err e
  check_pubkey nonce reg (ok pubkey) =
      check_sig nonce reg pubkey (decoded (c.b64_decode reg.sig) 64 bad_signature_encoding)

  unfoldable pub verify : Register → ℕ → Stateful Challenge AuthError (List ℕ)
  verify reg now_ms ch =
      if ch.spent || ltb nonce_ttl_ms (now_ms - ch.issued_ms) then (ch, err bad_nonce) else (
        record ch { spent = true },
        check_pubkey ch.nonce reg (decoded (c.b64_decode reg.pubkey) 32 bad_pubkey),
      )

  -- What a registered key has shown: the key and the signature are those that were sent, and the
  -- signature is of docs/PROTOCOL.md's message.
  pub record IsProved (nonce : List ℕ) (reg : Register) (pubkey : List ℕ) : Type 0 where
    pub signature : List ℕ
    pub key : c.b64_decode reg.pubkey ≡ some pubkey
    pub sent : c.b64_decode reg.sig ≡ some signature
    pub key_length : length pubkey ≡ 32
    pub signature_length : length signature ≡ 64
    pub signed : c.verify_strict pubkey (message nonce reg.device_id reg.role) signature ≡ true
    pub named : reg.device_id ≡ device_id_from_pubkey c pubkey

  check_key_sound :
      (nonce : List ℕ) (reg : Register) (pubkey sig key : List ℕ)
      → (c.b64_decode reg.pubkey ≡ some pubkey) × (length pubkey ≡ 32)
      → (c.b64_decode reg.sig ≡ some sig) × (length sig ≡ 64)
      → check_key nonce reg pubkey sig ≡ ok key
      → IsProved nonce reg key
  unfolding check_key
  check_key_sound nonce reg pubkey sig key read_key read_sig h =
      let same : pubkey ≡ key = ground arith in
      let signed : c.verify_strict pubkey (signing_input nonce reg.device_id reg.role) sig ≡ true =
        ground arith in
      let named : bytes_eq reg.device_id (device_id_from_pubkey c pubkey) ≡ true = ground arith in
      subst (IsProved nonce reg) same (record {
        signature = sig;
        key = read_key.0;
        sent = read_sig.0;
        key_length = read_key.1;
        signature_length = read_sig.1;
        signed = rw (← signing_input_lem nonce reg.device_id reg.role) signed;
        named = (bytes_eq_iff reg.device_id (device_id_from_pubkey c pubkey)).0 named;
      })

  check_sig_sound :
      (nonce : List ℕ) (reg : Register) (pubkey : List ℕ) (r : Result AuthError (List ℕ))
      (key : List ℕ)
      → (c.b64_decode reg.pubkey ≡ some pubkey) × (length pubkey ≡ 32)
      → r ≡ decoded (c.b64_decode reg.sig) 64 bad_signature_encoding
      → check_sig nonce reg pubkey r ≡ ok key
      → IsProved nonce reg key
  unfolding check_sig
  check_sig_sound nonce reg pubkey (err e) key read_key at h = absurd cc
  check_sig_sound nonce reg pubkey (ok sig) key read_key at h =
      check_key_sound nonce reg pubkey sig key read_key (decoded-ok _ 64 _ sig (sym at)) h

  check_pubkey_sound :
      (nonce : List ℕ) (reg : Register) (r : Result AuthError (List ℕ)) (key : List ℕ)
      → r ≡ decoded (c.b64_decode reg.pubkey) 32 bad_pubkey
      → check_pubkey nonce reg r ≡ ok key
      → IsProved nonce reg key
  unfolding check_pubkey
  check_pubkey_sound nonce reg (err e) key at h = absurd cc
  check_pubkey_sound nonce reg (ok pubkey) key at h =
      check_sig_sound nonce reg pubkey _ key (decoded-ok _ 32 _ pubkey (sym at)) refl h

  -- A registration succeeds only on an unspent challenge of the last 60000 ms, which it spends, for
  -- the key that it carries; the signature that it carries is of that key, over the challenge's nonce,
  -- the claimed identifier and the role in the protocol's layout, and the key's hash is that
  -- identifier.
  pub registered_sound :
      (reg : Register) (now_ms : ℕ) (ch after : Challenge) (key : List ℕ)
      → verify reg now_ms ch ≡ (after, ok key)
      → (ch.spent ≡ false)
        × (now_ms - ch.issued_ms ≤ 60000)
        × (after.spent ≡ true)
        × IsProved ch.nonce reg key
  unfolding verify
  registered_sound reg now_ms ch after key h =
      let test = ch.spent || ltb nonce_ttl_ms (now_ms - ch.issued_ms) in
      elim (Bool-cases test) [
        | inl late ↦
            let refused : verify reg now_ms ch ≡ (ch, err bad_nonce) = rw (late, verify) refl in
            absurd cc
        | inr fresh ↦
            let checked =
              check_pubkey ch.nonce reg (decoded (c.b64_decode reg.pubkey) 32 bad_pubkey) in
            let taken : verify reg now_ms ch ≡ (record ch { spent = true }, checked) =
              rw (fresh, verify) refl in
            let both = sym taken ∙ h in
            (
              ground arith,
              ground arith,
              sym (ap (λ (r : Challenge × Result AuthError (List ℕ)). r.0.spent) both),
              check_pubkey_sound ch.nonce reg (decoded (c.b64_decode reg.pubkey) 32 bad_pubkey) key
                  refl (ap (λ (r : Challenge × Result AuthError (List ℕ)). r.1) both),
            )
      ]

  -- An answer uses the challenge up, whatever its outcome: the next one is refused.
  pub verify_once :
      (reg again : Register) (now_ms later_ms : ℕ) (ch : Challenge)
      → now_ms - ch.issued_ms ≤ later_ms - ch.issued_ms
      → (verify again later_ms (verify reg now_ms ch).0).1 ≡ err bad_nonce
  unfolding verify
  verify_once reg again now_ms later_ms ch h = ground arith
