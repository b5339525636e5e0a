-- ===== src/Crypto/Identity/Trust.antt =====
-- identity.rs: the address book trusts a key on first use, and pins it.
use remote.Prelude.{
  ℕ, List, ◌≡◌, ◌≢◌, ◌↔◌, ◌∙◌, sym, ap, refl, true, false, none, some, inl, inr, arith, Bool-cases,
  Option-cases, bytes_eq, if◌then◌else◌,
}
use remote.Prelude.Bytes.{lookup, insert, lookup-insert, lookup-insert_self, bytes_eq_iff}
use remote.Crypto.Primitives.{Primitives}
use remote.Crypto.DeviceId.{DeviceId, device_id_from_pubkey}
use remote.Crypto.Identity.{
  PublicIdentity, first_contact, known, key_changed, AddressBook, check_and_pin,
}

-- The three outcomes, by the key that was pinned for the device.
first_use :
    (book : AddressBook) (p : PublicIdentity)
    → lookup p.device_id book ≡ none
    → check_and_pin book p ≡ (insert p.device_id p.key book, first_contact)
unfolding check_and_pin
first_use book p e = rw (e, check_and_pin) refl

pinned_use :
    (book : AddressBook) (p : PublicIdentity) (key : List ℕ)
    → lookup p.device_id book ≡ some key
    → check_and_pin book p ≡ (book, if bytes_eq key p.key then known else key_changed)
unfolding check_and_pin
pinned_use book p key e = rw (e, check_and_pin) refl

-- A peer is trusted exactly when, after the check, its own key is the one that is pinned.
pub trusted_iff :
    (book : AddressBook) (p : PublicIdentity)
    → ((check_and_pin book p).1 ≢ key_changed)
      ↔ (lookup p.device_id (check_and_pin book p).0 ≡ some p.key)
trusted_iff book p = elim (Option-cases (lookup p.device_id book)) [
  | inl e ↦ rw (first_use book p e) ((λ h. lookup-insert_self p.device_id p.key book), λ h. λ q. cc)
  | inr (k, e) ↦ elim (Bool-cases (bytes_eq k p.key)) [
    | inl same ↦
        rw (pinned_use book p k e, same, e, (bytes_eq_iff k p.key).0 same)
          ((λ h. refl), λ h. λ q. cc)
    | inr other ↦
        rw (pinned_use book p k e, other, e)
          (
            (λ h. absurd (h refl)),
            λ h. let twice : bytes_eq k p.key ≡ true = (bytes_eq_iff k p.key).1 (cc) in λ q. cc,
          )
  ]
]

-- A key that was pinned stays: no peer replaces it, of this device or of another.
pub check_and_pin-keeps :
    (book : AddressBook) (p : PublicIdentity) (id : DeviceId) (key : List ℕ)
    → lookup id book ≡ some key
    → lookup id (check_and_pin book p).0 ≡ some key
check_and_pin-keeps book p id key h = elim (Option-cases (lookup p.device_id book)) [
  | inl e ↦
      rw (first_use book p e)
        (ground (arith, lookup-insert p.device_id id p.key book, bytes_eq_iff p.device_id id))
  | inr (k, e) ↦ rw (pinned_use book p k e) h
]

-- An identity that was read from its key.
abbrev pub IsDerived : Primitives → PublicIdentity → Type 0
IsDerived c p = p.device_id ≡ device_id_from_pubkey c p.key

-- Every key of the book stands under the identifier that it gives.
abbrev pub IsSelfNamed : Primitives → AddressBook → Type 0
IsSelfNamed c book =
    (id key : List ℕ) → lookup id book ≡ some key → id ≡ device_id_from_pubkey c key

-- A book of derived identifiers reports a changed key only for two keys of one identifier: a
-- collision of the hash's first 60 bits.
pub key_changed-collision :
    (c : Primitives) (book : AddressBook) (p : PublicIdentity)
    → IsSelfNamed c book
    → IsDerived c p
    → (check_and_pin book p).1 ≡ key_changed
    → (key : List ℕ) × (key ≢ p.key) × (device_id_from_pubkey c key ≡ device_id_from_pubkey c p.key)
key_changed-collision c book p named derived h = elim (Option-cases (lookup p.device_id book)) [
  | inl e ↦
      let answer : (check_and_pin book p).1 ≡ first_contact = rw (first_use book p e) refl in
      absurd cc
  | inr (k, e) ↦ elim (Bool-cases (bytes_eq k p.key)) [
    | inl same ↦
        let answer : (check_and_pin book p).1 ≡ known = rw (pinned_use book p k e, same) refl in
        absurd cc
    | inr other ↦ (
      k,
      λ q.
          let twice : bytes_eq k p.key ≡ true = (bytes_eq_iff k p.key).1 q in
          let both : true ≡ false = sym twice ∙ other in cc,
      sym (named p.device_id k e) ∙ derived,
    )
  ]
]

pub check_and_pin-IsSelfNamed :
    (c : Primitives) (book : AddressBook) (p : PublicIdentity)
    → IsSelfNamed c book
    → IsDerived c p
    → IsSelfNamed c (check_and_pin book p).0
check_and_pin-IsSelfNamed c book p named derived id key h =
    elim (Option-cases (lookup p.device_id book)) [
      | inl e ↦ elim (Bool-cases (bytes_eq p.device_id id)) [
        | inl same ↦
            let at : lookup id (check_and_pin book p).0 ≡ some p.key =
              rw (first_use book p e, lookup-insert, same) refl in
            let key_is : p.key ≡ key = cc in
            sym ((bytes_eq_iff p.device_id id).0 same)
            ∙ derived
            ∙ ap (device_id_from_pubkey c) key_is
        | inr other ↦
            let at : lookup id (check_and_pin book p).0 ≡ lookup id book =
              rw (first_use book p e, lookup-insert, other) refl in
            named id key (sym at ∙ h)
      ]
      | inr (k, e) ↦ named id key (rw (pinned_use book p k e) at h)
    ]
