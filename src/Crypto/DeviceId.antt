-- ===== src/Crypto/DeviceId.antt =====
-- crates/rda-proto/src/ids.rs: device identifiers, and how they follow from a public key.
pub mod Text
use remote.Prelude.{
  ℕ, List, [], ◌∷◌, ◌++◌, ◌≡◌, ◌≢◌, ◌≤◌, ◌⊎◌, ◌==◌, ◌-◌, ◌&&◌, ◌||◌, not, leb, Option, none, some,
  Result, ok, err, if◌then◌else◌, length, take, drop, bytes_eq, All,
}
use remote.Prelude.Bytes.{codes}
use remote.Crypto.Primitives.{Primitives}

-- The canonical form: the bytes of twelve characters.
abbrev pub DeviceId : Type 0
DeviceId = List ℕ

abbrev pub device_id_len : ℕ
device_id_len = 12

abbrev pub devid_domain : List ℕ
devid_domain = codes "RDA-v1-devid"

pub data IdError : Type 0 where
  bad_length : ℕ → IdError
  bad_character : ℕ → IdError
  key_mismatch : IdError

unfoldable pub device_id_from_pubkey : Primitives → List ℕ → DeviceId
device_id_from_pubkey c pubkey =
    let digest = c.sha256 (devid_domain ++ 0 ∷ pubkey) in
    take device_id_len (c.base32 (take 8 digest))

-- `to_ascii_uppercase`.
unfoldable pub to_upper : ℕ → ℕ
to_upper ch = if leb b'a' ch && leb ch b'z' then ch - 32 else ch

-- The arms of the match on a character: the alphabet of identifiers has no I, L, O and U.
unfoldable pub normalise : ℕ → Option ℕ
normalise up =
    if up == b'I' || up == b'L'
    then some b'1'
    else if up == b'O'
    then some b'0'
    else if (leb b'A' up && leb up b'Z' && not (up == b'U')) || (leb b'0' up && leb up b'9')
    then some up
    else none

-- The loop of `parse` over the characters, with the text built so far.
unfoldable pub parse_chars : List ℕ → List ℕ → Result IdError (List ℕ)
parse_chars [] out = ok out
parse_chars (ch ∷ rest) out =
    let skipped = parse_chars rest out in
    let pushed = λ (n : ℕ). parse_chars rest (out ++ n ∷ []) in
    if ch == b'-' || ch == b' ' then skipped else elim (normalise (to_upper ch)) [
      | none ↦ err (bad_character (to_upper ch))
      | some n ↦ pushed n
    ]

unfoldable pub check_length : Result IdError (List ℕ) → Result IdError DeviceId
check_length (err e) = err e
check_length (ok out) =
    if length out == device_id_len then ok out else err (bad_length (length out))

unfoldable pub parse : List ℕ → Result IdError DeviceId
parse s = check_length (parse_chars s [])

-- `XXXX-XXXX-XXXX`.
unfoldable pub grouped : DeviceId → List ℕ
grouped id = take 4 id ++ b'-' ∷ (take 4 (drop 4 id) ++ b'-' ∷ take 4 (drop 8 id))

unfoldable pub verify_against : Primitives → DeviceId → List ℕ → Result IdError (Unit {0})
verify_against c id pubkey =
    if bytes_eq id (device_id_from_pubkey c pubkey) then ok tt else err key_mismatch

-- A character of an identifier: a digit, or a capital letter other than I, L, O and U.
abbrev pub IsSymbol : ℕ → Type 0
IsSymbol ch =
    ((b'0' ≤ ch) × (ch ≤ b'9'))
    ⊎ ((b'A' ≤ ch) × (ch ≤ b'Z') × (ch ≢ b'I') × (ch ≢ b'L') × (ch ≢ b'O') × (ch ≢ b'U'))

pub record IsId (id : DeviceId) : Type 0 where
  pub twelve : length id ≡ 12
  pub symbols : All IsSymbol id
