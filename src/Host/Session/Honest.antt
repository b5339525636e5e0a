-- ===== src/Host/Session/Honest.antt =====
-- session.rs, the whole attended flow with an honest peer: consent, the PAKE round, the grant.
use remote.Prelude.{
  ℕ, List, ◌≡◌, ◌≢◌, ◌∙◌, ◌≤◌, ◌-◌, refl, ap, true, some, Result, ok, arith, leb, ◌/◌, ◌%◌, ◌+◌,
}
use remote.Prelude.Bytes.{codes}
use remote.Proto.Caps.{SessionCaps, clamp_to}
use remote.Input.Grant.{AuthMethod, issue, AuditLog, Text}
use remote.Crypto.Primitives.{Primitives, IsLawful, Exchange}
use remote.Crypto.Identity.{Identity, PeerTrust, AddressBook, check_and_pin, public}
use remote.Crypto.Binding.{BindingVerifier, prove}
use remote.Crypto.Binding.Laws.{IsPaired, verify-prove}
use remote.Crypto.Pake.{
  confirm, start, finish, is_usable, PinVerifier, generate, six_digits, exchange_of, all_digits,
  pake_password, id_controller, id_host,
}
use remote.Crypto.Pake.Agreement.{agreement, counted, start_accepts}
use remote.Host.Session.State.{
  SessionError, PeerCredentials, awaiting_confirmation, Context, PinAuthResponse, allow, new,
}
use remote.Host.Session.Authorise.{apply_consent, begin_pin_auth, complete_pin_auth}
use remote.Host.Session.Sound.{PinChecked, complete_pin_auth_sound}
use remote.Host.Session.Handshake.{
  consented, apply_consent_accepts, begin_pin_auth_accepts, complete_pin_auth_accepts,
}

digit-range : (n : ℕ) → (leb b'0' (b'0' + n % 10) ≡ true) × (leb (b'0' + n % 10) b'9' ≡ true)
digit-range n = ground arith

-- The generated PIN is six digits, so that the controller accepts it.
six_digits-all_digits : (n : ℕ) → all_digits (six_digits n) ≡ true
unfolding all_digits six_digits
six_digits-all_digits n = ground (
  arith,
  digit-range (n / 100000),
  digit-range (n / 10000),
  digit-range (n / 1000),
  digit-range (n / 100),
  digit-range (n / 10),
  digit-range n,
)

generate-is_usable :
    (random issued now_ms : ℕ)
    → now_ms - issued ≤ 300000
    → is_usable (generate random issued) now_ms ≡ true
unfolding is_usable generate
generate-is_usable random issued now_ms h = ground arith

-- The grant of a completed session, at the capabilities that were consented to.
granted_caps :
    (c : Primitives) (x : Context) (tag : List ℕ) (peer : PeerCredentials) (now_ms : ℕ)
    (t : Context) (caps : SessionCaps)
    → x.session.consented_caps ≡ some caps
    → complete_pin_auth c tag peer now_ms x ≡ (t, ok tt)
    → t.session.grant
      ≡ some (issue x.session.session_id x.session.peer_id caps AuthMethod.session_pin now_ms)
granted_caps c x tag peer now_ms t caps consented h =
    let (key, other, checked, same, made) = complete_pin_auth_sound c x tag peer now_ms t h in
    let one : other ≡ caps = cc in
    made.grant
    ∙ ap (λ z. some (issue x.session.session_id x.session.peer_id z AuthMethod.session_pin now_ms))
        one

module _ (c : Primitives) (law : IsLawful c) (session_id : Text) (i : Identity)
    (v w : BindingVerifier) (paired : IsPaired v w) (requested caps : SessionCaps)
    (book : AddressBook) (audit : AuditLog) (random host_scalar peer_scalar : ℕ)
    (asked_ms consented_ms answered_ms now_ms : ℕ) where
  abbrev pub asked : Context
  asked = record {
    session = new session_id i.device_id requested asked_ms;
    address_book = book;
    audit = audit;
  }

  -- A peer that the book does not refuse, that reads the displayed PIN in time and holds the key
  -- of the dialled device gets its session: both rounds succeed, both sides derive one key, and the
  -- grant holds what was requested and consented to.
  pub honest_handshake :
      consented_ms - asked_ms ≤ 30000
      → answered_ms - consented_ms ≤ 300000
      → (check_and_pin book (public c i)).1 ≢ PeerTrust.key_changed
      → (e : Exchange) × (key : List ℕ) × (answer : PinAuthResponse) × (x1 : Context)
        × (x2 : Context) × (x3 : Context) × (apply_consent (allow caps) consented_ms random asked
            ≡ (x1, ok tt))
        × (start c session_id (six_digits random) peer_scalar ≡ ok e)
        × (begin_pin_auth c e.outbound answered_ms host_scalar x1 ≡ (x2, ok answer))
        × (finish e answer.pake_message ≡ ok key)
        × (answer.confirmation ≡ confirm c key (codes "host") session_id)
        × (complete_pin_auth c
              (confirm c key (codes "controller") session_id)
              (record { identity = public c i; binding = v; proof = prove c w i })
              now_ms
              x2
            ≡ (x3, ok tt))
        × (x3.session.grant
            ≡ some (
                issue session_id i.device_id
                  (clamp_to requested caps)
                  AuthMethod.session_pin
                  now_ms))
  unfolding new generate
  honest_handshake soon quick trusted =
      let x1 = consented asked caps consented_ms random in
      let pin : PinVerifier = record {
        session_id = session_id;
        pin = generate random consented_ms;
      } in
      let e =
        c.start_a (pake_password c session_id (six_digits random)) id_controller id_host
          peer_scalar in
      let started : start c session_id (six_digits random) peer_scalar ≡ ok e =
        start_accepts c session_id (six_digits random) peer_scalar refl
          (six_digits-all_digits random) in
      let usable : is_usable pin.pin answered_ms ≡ true =
        generate-is_usable random consented_ms answered_ms quick in
      let (key, responded, finished, sized) =
        agreement c law pin answered_ms host_scalar peer_scalar e usable started in
      let outbound = (exchange_of c pin host_scalar).outbound in
      let x2 : Context = record x1 {
        session = record (x1.session) {
          pin = some (counted pin);
          pending_key = some key;
          state = awaiting_confirmation;
        };
      } in
      let answer : PinAuthResponse = record {
        pake_message = outbound;
        confirmation = confirm c key (codes "host") session_id;
      } in
      let tag = confirm c key (codes "controller") session_id in
      let peer : PeerCredentials = record {
        identity = public c i;
        binding = v;
        proof = prove c w i;
      } in
      let checked : PinChecked c x2 tag peer key = record {
        awaiting = refl;
        derived = refl;
        confirmed = refl;
        unchanged = trusted;
        bound = verify-prove c law v w i paired;
      } in
      let granted = clamp_to requested caps in
      let accepted = complete_pin_auth_accepts c x2 tag key peer granted now_ms checked refl in
      let x3 = (complete_pin_auth c tag peer now_ms x2).0 in
      let completed : complete_pin_auth c tag peer now_ms x2 ≡ (x3, ok tt) =
        ap (λ (r : Result SessionError (Unit {0})). (x3, r)) accepted in
      (
        e,
        key,
        answer,
        x1,
        x2,
        x3,
        apply_consent_accepts asked caps consented_ms random refl soon,
        started,
        begin_pin_auth_accepts c x1 pin (counted pin) e.outbound outbound key answered_ms
            host_scalar refl refl responded,
        finished,
        refl,
        completed,
        granted_caps c x2 tag peer now_ms x3 granted refl completed,
      )
