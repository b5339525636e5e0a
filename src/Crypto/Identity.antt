-- ===== src/Crypto/Identity.antt =====
-- crates/rda-crypto/src/identity.rs: identities, and the address book of pinned keys.
pub mod Trust
use remote.Prelude.{
  ℕ, List, ◌==◌, Bool, true, false, Option, none, some, Result, ok, err, if◌then◌else◌, length,
  bytes_eq,
}
use remote.Prelude.Bytes.{lookup, insert, remove}
use remote.Crypto.Primitives.{Primitives}
use remote.Crypto.DeviceId.{DeviceId, device_id_from_pubkey}

pub data IdentityError : Type 0 where
  malformed_key bad_signature id_mismatch : IdentityError
  bad_key_length : ℕ → IdentityError

pub record Identity : Type 0 where
  pub signing_key : List ℕ
  pub device_id : DeviceId

-- The key is its bytes: `to_bytes` is the field.
pub record PublicIdentity : Type 0 where
  pub key : List ℕ
  pub device_id : DeviceId

pub data PeerTrust : Type 0 where
  first_contact known key_changed : PeerTrust

-- `entries`: the pinned key of each device.
abbrev pub AddressBook : Type 0
AddressBook = List (DeviceId × List ℕ)

module _ (c : Primitives) where
  open c use {verifying_key, is_point, verify_strict, b64_encode, b64_decode}

  unfoldable pub from_signing_key : List ℕ → Identity
  from_signing_key signing_key = record {
    signing_key = signing_key;
    device_id = device_id_from_pubkey c (verifying_key signing_key);
  }

  unfoldable pub from_secret_bytes : List ℕ → Result IdentityError Identity
  unfolding from_signing_key
  from_secret_bytes bytes =
      if length bytes == 32
      then ok (from_signing_key bytes)
      else err (bad_key_length (length bytes))

  unfoldable pub public : Identity → PublicIdentity
  public i = record { key = verifying_key i.signing_key; device_id = i.device_id }

  unfoldable pub sign : Identity → List ℕ → List ℕ
  sign i message = c.sign i.signing_key message

  -- `PublicIdentity::from_bytes`, at 32 bytes.
  unfoldable pub from_bytes : List ℕ → Result IdentityError PublicIdentity
  from_bytes bytes =
      if is_point bytes
      then ok (record { key = bytes; device_id = device_id_from_pubkey c bytes })
      else err malformed_key

  -- `decode_b64_array::<32>`.
  unfoldable pub decode_b64_key : List ℕ → Option (List ℕ)
  decode_b64_key s = elim (b64_decode s) [
    | none ↦ none
    | some v ↦ if length v == 32 then some v else none
  ]

  unfoldable pub from_b64 : List ℕ → Result IdentityError PublicIdentity
  unfolding from_bytes decode_b64_key
  from_b64 s = elim (decode_b64_key s) [ none ↦ err malformed_key | some bytes ↦ from_bytes bytes ]

  unfoldable pub to_b64 : PublicIdentity → List ℕ
  to_b64 p = b64_encode p.key

  unfoldable pub verify : PublicIdentity → List ℕ → List ℕ → Result IdentityError (Unit {0})
  verify p message signature =
      if verify_strict p.key message signature then ok tt else err bad_signature

unfoldable pub check_claims : PublicIdentity → DeviceId → Result IdentityError (Unit {0})
check_claims p claimed = if bytes_eq p.device_id claimed then ok tt else err id_mismatch

-- The match on the pinned key, the same in `check` and `check_and_pin`.
unfoldable pub check : AddressBook → PublicIdentity → PeerTrust
check book peer = elim (lookup peer.device_id book) [
  | none ↦ first_contact
  | some pinned ↦ if bytes_eq pinned peer.key then known else key_changed
]

unfoldable pub repin : AddressBook → PublicIdentity → AddressBook
repin book peer = insert peer.device_id peer.key book

unfoldable pub check_and_pin : AddressBook → PublicIdentity → AddressBook × PeerTrust
check_and_pin book peer = elim (lookup peer.device_id book) [
  | none ↦ (insert peer.device_id peer.key book, first_contact)
  | some pinned ↦ (book, if bytes_eq pinned peer.key then known else key_changed)
]

unfoldable pub forget : AddressBook → DeviceId → AddressBook × Bool
forget book id = (remove id book, elim (lookup id book) [ none ↦ false | some k ↦ true ])
