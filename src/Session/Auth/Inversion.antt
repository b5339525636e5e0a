-- ===== src/Session/Auth/Inversion.antt =====
-- auth.rs: what follows from a step of either program that went through.
use remote.Prelude.{
  subst, ◌++◌, ℕ, List, [], ◌∷◌, ◌≡◌, ◌⊎◌, refl, sym, ap, true, false, Bool, Result, ok, err, inl,
  inr, arith, length, Bool-cases, bytes_eq→≡,
}
use remote.Prelude.Stateful.{after}
use remote.Crypto.Primitives.{Primitives}
use remote.Crypto.DeviceId.{device_id_from_pubkey}
use remote.Crypto.Identity.{PublicIdentity, from_bytes}
use remote.Crypto.Identity.Trust.{IsDerived}
use remote.Crypto.Binding.{Fingerprint}
use remote.Crypto.Pake.{confirm_matches}
use remote.Session.Auth.Link.{
  AuthError, malformed, Cbor, Frame, Event, frame, ended, late, other, Link, M, next_frame, next_of,
  send, decode, lift, receive, fingerprints, both,
}
use remote.Session.Auth.Run.{to_array, or_else, assert, tag_matches, parse_identity}

-- The frame is among the events.
abbrev pub Arrives : Frame → List Event → Type 0
Arrives f [] = ⊥
Arrives f (frame g ∷ rest) = (g ≡ f) ⊎ Arrives f rest
Arrives f (other ∷ rest) = Arrives f rest
Arrives f (ended ∷ rest) = Arrives f rest
Arrives f (late ∷ rest) = Arrives f rest

abbrev pub Later : List Event → List Event → Type 0
Later rest events = (f : Frame) → Arrives f rest → Arrives f events

next_of-ok :
    (events rest : List Event) (f : Frame)
    → next_of events ≡ (rest, ok f)
    → Arrives f events × Later rest events
unfolding next_of
next_of-ok [] rest f h = absurd cc
next_of-ok (frame g ∷ more) rest f h =
    let same : g ≡ f = cc in
    let tail : more ≡ rest = cc in (inl same, λ x a. inr (subst (Arrives x) (sym tail) a))
next_of-ok (ended ∷ more) rest f h = absurd cc
next_of-ok (late ∷ more) rest f h = absurd cc
next_of-ok (other ∷ more) rest f h = next_of-ok more rest f h

pub ok-injective : {E A : Type 0} {a b : A} → ◌≡◌ {A = Result E A} (ok a) (ok b) → a ≡ b
ok-injective h = cc

pub or_else-ok :
    {E A : Type 0} (e : AuthError) (r : Result E A) {a : A} → or_else e r ≡ ok a → r ≡ ok a
or_else-ok e (ok a) h = ap ok (ok-injective h)
or_else-ok e (err x) h = absurd cc

from_bytes-IsDerived :
    (c : Primitives) (bytes : List ℕ) (p : PublicIdentity)
    → from_bytes c bytes ≡ ok p
    → IsDerived c p
unfolding from_bytes
from_bytes-IsDerived c bytes p h = elim (Bool-cases (c.is_point bytes)) [
  | inl e ↦
      let same : record { key = bytes; device_id = device_id_from_pubkey c bytes } ≡ p =
        ground arith in
      subst (IsDerived c) same refl
  | inr e ↦ absurd (ground arith)
]

pub to_array-ok : (n : ℕ) (b : List ℕ) {a : List ℕ} → to_array n b ≡ ok a → b ≡ a
unfolding to_array
to_array-ok n b h = ground arith

pub tag_matches-ok : (tag expected : List ℕ) → tag_matches tag expected ≡ true → tag ≡ expected
unfolding confirm_matches
tag_matches-ok tag expected h = sym (bytes_eq→≡ expected tag (ground arith))

module _ {B : Type 0} {t : Link} {b : B} where
  pub lift-ok :
      {A : Type 0} (r : Result AuthError A) (l : Link) (k : A → M B)
      → after (lift r l) k ≡ (t, ok b)
      → (a : A) × (r ≡ ok a) × (k a l ≡ (t, ok b))
  lift-ok (ok a) l k h = (a, refl, h)
  lift-ok (err e) l k h = absurd cc

  pub assert-ok :
      (test : Bool) (e : AuthError) (l : Link) (k : Unit {0} → M B)
      → after (assert test e l) k ≡ (t, ok b)
      → (test ≡ true) × (k tt l ≡ (t, ok b))
  assert-ok true e l k h = (refl, h)
  assert-ok false e l k h = absurd cc

  pub send-ok :
      (f : Frame) (l : Link) (k : Unit {0} → M B)
      → after (send f l) k ≡ (t, ok b)
      → (l.alive (length l.sent) ≡ true) × (k tt (record l { sent = l.sent ++ f ∷ [] }) ≡ (t, ok b))
  unfolding send
  send-ok f l k h = elim (Bool-cases (l.alive (length l.sent))) [
    | inl e ↦ (e, rw e at h)
    | inr e ↦ absurd (ground arith)
  ]

  received :
      {T : Type 0} (c : Cbor T) (kind : ℕ) (l : Link) (k : T → M B)
      (q : List Event × Result AuthError Frame)
      → after (after (record l { incoming = q.0 }, q.1) (λ f. lift (decode c f kind))) k ≡ (t, ok b)
      → (f : Frame) × (body : T) × (q.1 ≡ ok f)
        × (decode c f kind ≡ ok body)
        × (k body (record l { incoming = q.0 }) ≡ (t, ok b))
  received c kind l k (rest, ok f) h =
      let (body, read, next) = lift-ok (decode c f kind) (record l { incoming = rest }) k h in
      (f, body, refl, read, next)
  received c kind l k (rest, err e) h = absurd cc

  pub receive-ok :
      {T : Type 0} (c : Cbor T) (kind : ℕ) (l : Link) (k : T → M B)
      → after (receive c kind l) k ≡ (t, ok b)
      → (f : Frame) × (body : T) × (rest : List Event) × Arrives f l.incoming
        × Later rest l.incoming
        × (decode c f kind ≡ ok body)
        × (k body (record l { incoming = rest }) ≡ (t, ok b))
  unfolding receive next_frame
  receive-ok c kind l k h =
      let (f, body, came, read, next) = received c kind l k (next_of l.incoming) h in
      let (arrives, later) =
        next_of-ok l.incoming (next_of l.incoming).0 f
          (ap (λ r. ((next_of l.incoming).0, r)) came) in
      (f, body, (next_of l.incoming).0, arrives, later, read, next)

  parsed-ok :
      (c : Primitives) (r : Result AuthError (List ℕ)) (l : Link) (k : PublicIdentity → M B)
      → after (after (lift r l) (λ a. lift (or_else malformed (from_bytes c a)))) k ≡ (t, ok b)
      → (p : PublicIdentity) × IsDerived c p × (k p l ≡ (t, ok b))
  parsed-ok c (ok bytes) l k h =
      let (p, read, next) = lift-ok (or_else malformed (from_bytes c bytes)) l k h in
      (p, from_bytes-IsDerived c bytes p (or_else-ok malformed (from_bytes c bytes) read), next)
  parsed-ok c (err e) l k h = absurd cc

  pub parse_identity-ok :
      (c : Primitives) (bytes : List ℕ) (l : Link) (k : PublicIdentity → M B)
      → after (parse_identity c bytes l) k ≡ (t, ok b)
      → (p : PublicIdentity) × IsDerived c p × (k p l ≡ (t, ok b))
  unfolding parse_identity
  parse_identity-ok c bytes l k h = parsed-ok c (to_array 32 bytes) l k h

  pub fingerprints-ok :
      (l : Link) (k : Fingerprint × Fingerprint → M B)
      → after (fingerprints l) k ≡ (t, ok b)
      → (p : Fingerprint × Fingerprint) × (both l.local_fingerprint l.remote_fingerprint ≡ ok p)
        × (k p l ≡ (t, ok b))
  unfolding fingerprints
  fingerprints-ok l k h = lift-ok (both l.local_fingerprint l.remote_fingerprint) l k h
