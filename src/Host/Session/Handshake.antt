-- ===== src/Host/Session/Handshake.antt =====
-- session.rs: an honest peer that knows the PIN gets its session.
use remote.Prelude.{
  ltb, Bool, Option, ℕ, List, ◌≡◌, ◌≢◌, ◌∙◌, ◌≤◌, ◌-◌, refl, ap, true, false, none, some, Result,
  ok, arith, bytes_eq_refl,
}
use remote.Prelude.Bytes.{codes}
use remote.Prelude.Stateful.{after-eq}
use remote.Proto.Caps.{SessionCaps, clamp_to}
use remote.Crypto.Primitives.{Primitives}
use remote.Crypto.Identity.{PublicIdentity, PeerTrust, check_and_pin}
use remote.Crypto.Binding
use remote.Crypto.Binding.{BindingVerifier, BindingProof, prove}
use remote.Crypto.Pake.{confirm, confirm_matches, respond, PinVerifier, generate}
use remote.Host.Session.State.{
  is_awaiting_consent, is_authenticating, allow, awaiting_confirmation, authenticating,
  awaiting_consent, or_wrong_state, require, is_awaiting_confirmation, SessionState, SessionError,
  Context, PeerCredentials,
}
use remote.Host.Session.Authorise.{
  apply_consent, decide, begin_pin_auth, answer_pin, take_key, check_confirmation, check_book,
  judge, check_binding, judge_binding, complete_pin_auth, establish_by_pin,
}
use remote.Host.Session.Sound.{PinChecked}

pub require_accepts :
    (test : SessionState → Bool) (x : Context)
    → test x.session.state ≡ true
    → require test x ≡ (x, ok tt)
require_accepts test x h = rw h refl

or_wrong_state_accepts :
    {A : Type 0} (o : Option A) (a : A) (x : Context) → o ≡ some a → or_wrong_state o x ≡ (x, ok a)
or_wrong_state_accepts o a x h = rw h refl

take_key_accepts :
    (x : Context) (key : List ℕ)
    → x.session.pending_key ≡ some key
    → take_key x ≡ (record x { session = record (x.session) { pending_key = none } }, ok key)
unfolding take_key
take_key_accepts x key h = or_wrong_state_accepts x.session.pending_key key _ h

check_confirmation_accepts :
    (c : Primitives) (key tag : List ℕ) (x : Context)
    → confirm c key (codes "controller") x.session.session_id ≡ tag
    → check_confirmation c key tag x ≡ (x, ok tt)
unfolding check_confirmation confirm_matches
check_confirmation_accepts c key tag x h = rw (h, check_confirmation, bytes_eq_refl) refl

judge_accepts :
    (trust : PeerTrust) (x : Context) → trust ≢ PeerTrust.key_changed → judge trust x ≡ (x, ok tt)
unfolding judge
judge_accepts PeerTrust.key_changed x h = absurd (h refl)
judge_accepts PeerTrust.first_contact x h = refl
judge_accepts PeerTrust.known x h = refl

check_book_accepts :
    (p : PublicIdentity) (x : Context)
    → (check_and_pin x.address_book p).1 ≢ PeerTrust.key_changed
    → check_book p x ≡ (record x { address_book = (check_and_pin x.address_book p).0 }, ok tt)
unfolding check_book
check_book_accepts p x h = judge_accepts _ _ h

pub check_binding_accepts :
    (c : Primitives) (v : BindingVerifier) (proof : BindingProof) (x : Context)
    → Binding.verify c v proof (some x.session.peer_id) ≡ ok tt
    → check_binding c v proof x ≡ (x, ok tt)
unfolding check_binding judge_binding
check_binding_accepts c v proof x h = rw (check_binding, h, judge_binding) refl

-- The session after the user's consent: `random` is the number that the PIN is made of.
abbrev pub consented : Context → SessionCaps → ℕ → ℕ → Context
consented x caps now_ms random =
    let s = x.session in
    record x {
      session = record s {
        consented_caps = some (clamp_to s.requested_caps caps);
        pin = some (record { session_id = s.session_id; pin = generate random now_ms });
        state = authenticating;
      };
    }

pub apply_consent_accepts :
    (x : Context) (caps : SessionCaps) (now_ms random : ℕ)
    → x.session.state ≡ awaiting_consent
    → now_ms - x.session.started_at_ms ≤ 30000
    → apply_consent (allow caps) now_ms random x ≡ (consented x caps now_ms random, ok tt)
unfolding apply_consent decide
apply_consent_accepts x caps now_ms random fresh soon =
    let early : ltb 30000 (now_ms - x.session.started_at_ms) ≡ false = ground arith in
    let waiting : is_awaiting_consent x.session.state ≡ true = rw fresh refl in
    rw (waiting, early) refl

module _ (c : Primitives) where
  establish_by_pin-ok :
      (peer : PeerCredentials) (caps : SessionCaps) (now_ms : ℕ) (x : Context)
      → (establish_by_pin c peer caps now_ms x).1 ≡ ok tt
  unfolding establish_by_pin
  establish_by_pin-ok peer caps now_ms x = refl

  -- The four checks suffice.
  pub complete_pin_auth_accepts :
      (x : Context) (tag key : List ℕ) (peer : PeerCredentials) (caps : SessionCaps) (now_ms : ℕ)
      → PinChecked c x tag peer key
      → x.session.consented_caps ≡ some caps
      → (complete_pin_auth c tag peer now_ms x).1 ≡ ok tt
  unfolding complete_pin_auth
  complete_pin_auth_accepts x tag key peer caps now_ms p consented =
      let y = record x { session = record (x.session) { pending_key = none } } in
      let z = record y { address_book = (check_and_pin x.address_book peer.identity).0 } in
      let made : complete_pin_auth c tag peer now_ms x ≡ establish_by_pin c peer caps now_ms z =
        after-eq _ (require_accepts is_awaiting_confirmation x (rw p.awaiting refl))
        ∙ after-eq _ (or_wrong_state_accepts x.session.consented_caps caps x consented)
        ∙ after-eq _ (take_key_accepts x key p.derived)
        ∙ after-eq _ (check_confirmation_accepts c key tag y p.confirmed)
        ∙ after-eq _ (check_book_accepts peer.identity y p.unchanged)
        ∙ after-eq _ (check_binding_accepts c peer.binding peer.proof z p.bound) in
      ap (λ (r : Context × Result SessionError (Unit {0})). r.1) made
      ∙ establish_by_pin-ok peer caps now_ms z

  pub begin_pin_auth_accepts :
      (x : Context) (v w : PinVerifier) (message outbound key : List ℕ) (now_ms random : ℕ)
      → x.session.state ≡ authenticating
      → x.session.pin ≡ some v
      → respond c message now_ms random v ≡ (w, ok (outbound, key))
      → begin_pin_auth c message now_ms random x ≡ (
        record x {
          session = record (x.session) {
            pin = some w;
            pending_key = some key;
            state = awaiting_confirmation;
          };
        },
        ok (record {
          pake_message = outbound;
          confirmation = confirm c key (codes "host") x.session.session_id;
        }),
      )
  unfolding begin_pin_auth answer_pin
  begin_pin_auth_accepts x v w message outbound key now_ms random state pin answered =
      after-eq _ (require_accepts is_authenticating x (rw state refl))
      ∙ after-eq _ (or_wrong_state_accepts x.session.pin v x pin)
      ∙ ap (λ r. answer_pin c r x) answered
