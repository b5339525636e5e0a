-- ===== src/Host/Session/Inversion.antt =====
-- session.rs: what each step guarantees when it succeeds.
use remote.Prelude.{
  ℕ, List, ◌≡◌, ◌≢◌, refl, true, Bool, Option, none, some, Result, ok, err, inl, inr, arith,
  Bool-cases, bytes_eq, bytes_eq→≡,
}
use remote.Prelude.Bytes.{codes}
use remote.Prelude.Stateful.{after}
use remote.Crypto.Primitives.{Primitives}
use remote.Crypto.Binding
use remote.Crypto.Identity.{PublicIdentity, PeerTrust, check_and_pin}
use remote.Crypto.Binding.{BindingVerifier, BindingProof, BindingError}
use remote.Crypto.Pake.{confirm, confirm_matches}
use remote.Crypto.Token.{AccessToken, TokenError}
use remote.Host.Session.State.{SessionState, Context, M, require, or_wrong_state}
use remote.Host.Session.Authorise.{
  check_confirmation, check_book, judge, check_binding, judge_binding, judge_token,
}

module _ {B : Type 0} {t : Context} {b : B} where
  pub require-ok :
      (test : SessionState → Bool) (x : Context) (k : M B)
      → after (require test x) (λ u. k) ≡ (t, ok b)
      → (test x.session.state ≡ true) × (k x ≡ (t, ok b))
  require-ok test x k h = elim (Bool-cases (test x.session.state)) [
    | inl e ↦ (e, rw e at h)
    | inr e ↦ absurd (ground arith)
  ]

  pub or_wrong_state-ok :
      {A : Type 0} (o : Option A) (x : Context) (k : A → M B)
      → after (or_wrong_state o x) k ≡ (t, ok b)
      → (a : A) × (o ≡ some a) × (k a x ≡ (t, ok b))
  or_wrong_state-ok none x k h = absurd cc
  or_wrong_state-ok (some a) x k h = (a, refl, h)

  pub check_confirmation-ok :
      (c : Primitives) (key tag : List ℕ) (x : Context) (k : M B)
      → after (check_confirmation c key tag x) (λ u. k) ≡ (t, ok b)
      → (confirm c key (codes "controller") x.session.session_id ≡ tag) × (k x ≡ (t, ok b))
  unfolding check_confirmation confirm_matches
  check_confirmation-ok c key tag x k h =
      let expected = confirm c key (codes "controller") x.session.session_id in
      elim (Bool-cases (bytes_eq expected tag)) [
        | inl e ↦ (bytes_eq→≡ expected tag e, rw e at h)
        | inr e ↦ absurd (ground arith)
      ]

  judge-ok :
      (trust : PeerTrust) (x : Context) (k : M B)
      → after (judge trust x) (λ u. k) ≡ (t, ok b)
      → (trust ≢ PeerTrust.key_changed) × (k x ≡ (t, ok b))
  unfolding judge
  judge-ok PeerTrust.key_changed x k h = absurd cc
  judge-ok PeerTrust.first_contact x k h = (λ e. cc, h)
  judge-ok PeerTrust.known x k h = (λ e. cc, h)

  pub check_book-ok :
      (p : PublicIdentity) (x : Context) (k : M B)
      → after (check_book p x) (λ u. k) ≡ (t, ok b)
      → ((check_and_pin x.address_book p).1 ≢ PeerTrust.key_changed)
        × (k (record x { address_book = (check_and_pin x.address_book p).0 }) ≡ (t, ok b))
  unfolding check_book
  check_book-ok p x k h = judge-ok _ _ k h

  judge_binding-ok :
      (r : Result BindingError (Unit {0})) (x : Context) (k : M B)
      → after (judge_binding r x) (λ u. k) ≡ (t, ok b)
      → (r ≡ ok tt) × (k x ≡ (t, ok b))
  unfolding judge_binding
  judge_binding-ok (ok u) x k h = (refl, h)
  judge_binding-ok (err e) x k h = absurd cc

  pub check_binding-ok :
      (c : Primitives) (v : BindingVerifier) (proof : BindingProof) (x : Context) (k : M B)
      → after (check_binding c v proof x) (λ u. k) ≡ (t, ok b)
      → (Binding.verify c v proof (some x.session.peer_id) ≡ ok tt) × (k x ≡ (t, ok b))
  unfolding check_binding
  check_binding-ok c v proof x k h = judge_binding-ok _ x k h

  pub judge_token-ok :
      (r : Result TokenError AccessToken) (x : Context) (k : AccessToken → M B)
      → after (judge_token r x) k ≡ (t, ok b)
      → (a : AccessToken) × (r ≡ ok a) × (k a x ≡ (t, ok b))
  unfolding judge_token
  judge_token-ok (ok a) x k h = (a, refl, h)
  judge_token-ok (err e) x k h = absurd cc
