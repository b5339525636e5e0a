-- ===== src/Host/Session/Safe/Keeps.antt =====
-- Every method keeps a session safe, and so does every sequence of calls.
use remote.Prelude.{
  ℕ, List, String, ◌≡◌, ◌≤◌, ◌-◌, ◌||◌, refl, true, Option, none, some, Result, ok, err, inl, inr,
  arith, Bool-cases, IfSome, subst, ltb,
}
use remote.Prelude.Stateful.{◌>>◌}
use remote.Proto.Caps.{SessionCaps, IsWithin, clamp_to}
use remote.Input.Grant
use remote.Input.Grant.{SessionGrant, AuditLog}
use remote.Crypto.Primitives.{Primitives}
use remote.Crypto.Identity.{Identity, AddressBook}
use remote.Crypto.Token.{TokenStore, session_caps, AccessToken}
use remote.Crypto.Pake.{PinVerifier, PakeError, respond, is_usable, generate, consume}
use remote.Host.Session.State.{
  established, HostSession, Context, PeerCredentials, ConsentDecision, allow, deny,
  is_awaiting_consent, is_authenticating, is_awaiting_confirmation, consent_timeout_ms, new,
  is_closed,
}
use remote.Host.Session.Authorise.{
  check_confirmation, check_book, check_binding, answer_pin, apply_consent, decide, begin_pin_auth,
  complete_pin_auth, authenticate_with_token, restrict_grant, establish_by_pin, establish_by_token,
  restrict, close, consume_pin,
}
use remote.Host.Session.Safe.{
  IsSafe, Grants, Step, Reach, consent, begin, complete, token, narrow, ended, here, next,
}
use remote.Host.Session.Safe.Rules.{
  IsBare, IsBare-IsSafe, IsSafe-IsBare, Ends, Ends-after, Ends-IsSafe, IsOpen, require-Ends,
  or_wrong_state-Ends, take_key-Ends, check_confirmation-Ends, check_book-Ends, check_binding-Ends,
  judge_token-Ends,
}

clamp_to-IsWithin : (a b : SessionCaps) → IsWithin (clamp_to a b) a
unfolding clamp_to
clamp_to-IsWithin a b = ground arith

clamp_to-IsWithin_requested : (a b r : SessionCaps) → IsWithin a r → IsWithin (clamp_to a b) r
unfolding clamp_to
clamp_to-IsWithin_requested a b r h = ground arith

-- A session without a grant, and capabilities within its request.
abbrev Ready : SessionCaps → HostSession → Type 0
Ready caps s = IsBare s × IsWithin caps s.requested_caps

IsBare-open : IsOpen IsBare
IsBare-open = record {
  bare = λ s b. b;
  keyless = λ s b. record { grant = b.grant; consent = b.consent; attempts = b.attempts };
}

Ready-open : (caps : SessionCaps) → IsOpen (Ready caps)
Ready-open caps = record { bare = λ s p. p.0; keyless = λ s p. (IsBare-open.keyless s p.0, p.1) }

decide-IsSafe :
    (d : ConsentDecision) (now_ms random : ℕ) (x : Context)
    → IsBare x.session
    → IsSafe (decide d now_ms random x).0.session
unfolding decide generate
decide-IsSafe deny now_ms random x b =
    IsBare-IsSafe _ (record { grant = b.grant; consent = b.consent; attempts = b.attempts })
decide-IsSafe (allow caps) now_ms random x b = IsBare-IsSafe _ (record {
  grant = b.grant;
  consent = clamp_to-IsWithin x.session.requested_caps caps;
  attempts = omega arith;
})

apply_consent-IsSafe :
    (d : ConsentDecision) (now_ms random : ℕ) (x : Context)
    → IsSafe x.session
    → IsSafe (apply_consent d now_ms random x).0.session
unfolding apply_consent
apply_consent-IsSafe d now_ms random x safe =
    elim (Bool-cases (is_awaiting_consent x.session.state)) [
      | inl e ↦
          let b = IsSafe-IsBare x.session safe (λ h.
            let at : is_awaiting_consent established ≡ true =
              subst (λ s. is_awaiting_consent s ≡ true) h e in
            cc) in
          elim (Bool-cases (ltb consent_timeout_ms (now_ms - x.session.started_at_ms))) [
            | inl late ↦
                rw (e, late)
                  (IsBare-IsSafe _
                    (record { grant = b.grant; consent = b.consent; attempts = b.attempts }))
            | inr soon ↦ rw (e, soon) (decide-IsSafe d now_ms random x b)
          ]
      | inr e ↦ rw e safe
    ]

respond-attempts :
    (c : Primitives) (message : List ℕ) (now_ms random : ℕ) (v : PinVerifier)
    → v.pin.attempts ≤ 3
    → (respond c message now_ms random v).0.pin.attempts ≤ 3
unfolding respond is_usable
respond-attempts c message now_ms random v h = ground arith

answer_pin-Ends :
    (c : Primitives) (r : PinVerifier × Result PakeError (List ℕ × List ℕ)) (x : Context)
    → r.0.pin.attempts ≤ 3
    → IsBare x.session
    → Ends (λ a t. IsSafe t.session) (answer_pin c r x)
unfolding answer_pin
answer_pin-Ends c (v, err e) x h b =
    IsBare-IsSafe _ (record { grant = b.grant; consent = b.consent; attempts = h })
answer_pin-Ends c (v, ok (message, key)) x h b =
    IsBare-IsSafe _ (record { grant = b.grant; consent = b.consent; attempts = h })

consume_pin-attempts :
    (o : Option PinVerifier)
    → IfSome (λ (v : PinVerifier). v.pin.attempts ≤ 3) o
    → IfSome (λ (v : PinVerifier). v.pin.attempts ≤ 3) (consume_pin o)
unfolding consume
consume_pin-attempts none h = h
consume_pin-attempts (some v) h = h

restrict_grant-IsSafe :
    (o : Option SessionGrant) (to : SessionCaps) (now_ms : ℕ) (x : Context)
    → IfSome (Grants x.session) o
    → IsSafe x.session
    → IsSafe (restrict_grant o to now_ms x).session
unfolding restrict_grant Grant.restrict
restrict_grant-IsSafe none to now_ms x h safe = safe
restrict_grant-IsSafe (some g) to now_ms x (state, session, peer, within) safe = record {
  grant =
      (state, session, peer, clamp_to-IsWithin_requested g.caps to x.session.requested_caps within);
  consent = safe.consent;
  attempts = safe.attempts;
}

close-IsSafe :
    (reason : String) (now_ms : ℕ) (x : Context)
    → IsSafe x.session
    → IsSafe (close reason now_ms x).session
unfolding close
close-IsSafe reason now_ms x safe = elim (Bool-cases (is_closed x.session.state)) [
  | inl e ↦ rw e safe
  | inr e ↦ rw e (record { grant = tt; consent = safe.consent; attempts = safe.attempts })
]

abbrev Safely : {A : Type 0} → A → Context → Type 0
Safely a t = IsSafe t.session

abbrev Bare : {A : Type 0} → A → Context → Type 0
Bare a t = IsBare t.session

abbrev Holds : SessionCaps → Unit {0} → Context → Type 0
Holds caps u t = Ready caps t.session

abbrev Consents : SessionCaps → Context → Type 0
Consents caps t = Ready caps t.session

abbrev Answers : PinVerifier → Context → Type 0
Answers v t = (v.pin.attempts ≤ 3) × IsBare t.session

with_bare :
    (o : Option PinVerifier) (x : Context)
    → IsBare x.session
    → IfSome (λ (v : PinVerifier). v.pin.attempts ≤ 3) o
    → IfSome (λ v. Answers v x) o
with_bare none x b h = tt
with_bare (some v) x b h = (h, b)

with_ready :
    (o : Option SessionCaps) (x : Context)
    → IsBare x.session
    → IfSome (λ caps. IsWithin caps x.session.requested_caps) o
    → IfSome (λ caps. Consents caps x) o
with_ready none x b h = tt
with_ready (some caps) x b h = (b, h)

module _ (c : Primitives) where
  begin_pin_auth-IsSafe :
      (message : List ℕ) (now_ms random : ℕ) (x : Context)
      → IsSafe x.session
      → IsSafe (begin_pin_auth c message now_ms random x).0.session
  unfolding begin_pin_auth
  begin_pin_auth-IsSafe message now_ms random x safe =
      Ends-IsSafe (begin_pin_auth c message now_ms random x) (
        Ends-after Bare Safely _ _ (require-Ends is_authenticating x refl safe) (λ u y b.
          Ends-after Answers Safely _ _
            (or_wrong_state-Ends Answers y.session.pin y b (with_bare y.session.pin y b b.attempts))
            (λ v z p.
              answer_pin-Ends c (respond c message now_ms random v) z
                (respond-attempts c message now_ms random v p.0) p.1)))

  establish_by_pin-Ends :
      (peer : PeerCredentials) (caps : SessionCaps) (now_ms : ℕ) (x : Context)
      → Ready caps x.session
      → Ends Safely (establish_by_pin c peer caps now_ms x)
  unfolding establish_by_pin Grant.issue
  establish_by_pin-Ends peer caps now_ms x p = record {
    grant = (refl, refl, refl, p.1);
    consent = p.0.consent;
    attempts = consume_pin-attempts x.session.pin p.0.attempts;
  }

  -- From the key confirmation on.
  checked-Ends :
      (peer : PeerCredentials) (caps : SessionCaps) (key tag : List ℕ) (now_ms : ℕ) (x : Context)
      → Ready caps x.session
      → Ends Safely (
          (check_confirmation c key tag
              >> (check_book peer.identity
                  >> (check_binding c peer.binding peer.proof
                      >> establish_by_pin c peer caps now_ms)))
            x)
  checked-Ends peer caps key tag now_ms x p =
      let kept = Ready-open caps in
      Ends-after (Holds caps) Safely _ _ (check_confirmation-Ends (Ready caps) kept c key tag x p)
        (λ u y q.
          Ends-after (Holds caps) Safely _ _ (check_book-Ends (Ready caps) kept peer.identity y q)
            (λ w z r.
              Ends-after (Holds caps) Safely _ _
                (check_binding-Ends (Ready caps) kept c peer.binding peer.proof z r)
                (λ v t s. establish_by_pin-Ends peer caps now_ms t s)))

  complete_pin_auth-IsSafe :
      (tag : List ℕ) (peer : PeerCredentials) (now_ms : ℕ) (x : Context)
      → IsSafe x.session
      → IsSafe (complete_pin_auth c tag peer now_ms x).0.session
  unfolding complete_pin_auth
  complete_pin_auth-IsSafe tag peer now_ms x safe =
      Ends-IsSafe (complete_pin_auth c tag peer now_ms x) (
        Ends-after Bare Safely _ _ (require-Ends is_awaiting_confirmation x refl safe) (λ u y b.
          Ends-after Consents Safely _ _
            (or_wrong_state-Ends Consents y.session.consented_caps y b
              (with_ready y.session.consented_caps y b b.consent))
            (λ caps z p.
              Ends-after (λ key t. Ready caps t.session) Safely _ _
                (take_key-Ends (Ready caps) (Ready-open caps) z p)
                (λ key t q. checked-Ends peer caps key tag now_ms t q))))

  establish_by_token-Ends :
      (peer : PeerCredentials) (a : AccessToken) (now_ms : ℕ) (x : Context)
      → IsBare x.session
      → Ends Safely (establish_by_token c peer a now_ms x)
  unfolding establish_by_token Grant.issue
  establish_by_token-Ends peer a now_ms x b = record {
    grant = (refl, refl, refl, clamp_to-IsWithin x.session.requested_caps (session_caps a.claims));
    consent = b.consent;
    attempts = b.attempts;
  }

  authenticate_with_token-IsSafe :
      (encoded : List ℕ) (host : Identity) (tokens : TokenStore) (peer : PeerCredentials)
      (now_ms : ℕ) (x : Context)
      → IsSafe x.session
      → IsSafe (authenticate_with_token c encoded host tokens peer now_ms x).0.session
  unfolding authenticate_with_token
  authenticate_with_token-IsSafe encoded host tokens peer now_ms x safe =
      Ends-IsSafe (authenticate_with_token c encoded host tokens peer now_ms x) (
        Ends-after Bare Safely _ _
          (require-Ends (λ s. is_awaiting_consent s || is_authenticating s) x refl safe)
          (λ u y b. Ends-after Bare Safely _ _ (judge_token-Ends IsBare IsBare-open _ y b) (λ a z r.
            Ends-after Bare Safely _ _
              (check_binding-Ends IsBare IsBare-open c peer.binding peer.proof z r)
              (λ v t s. establish_by_token-Ends peer a now_ms t s))))

  -- Whatever a method returns, it leaves a safe session safe.
  pub Step-IsSafe : {x y : Context} → Step c x y → IsSafe x.session → IsSafe y.session
  unfolding restrict
  Step-IsSafe (consent x d now_ms random) safe = apply_consent-IsSafe d now_ms random x safe
  Step-IsSafe (begin x message now_ms random) safe =
      begin_pin_auth-IsSafe message now_ms random x safe
  Step-IsSafe (complete x tag peer now_ms) safe = complete_pin_auth-IsSafe tag peer now_ms x safe
  Step-IsSafe (token x encoded host tokens peer now_ms) safe =
      authenticate_with_token-IsSafe encoded host tokens peer now_ms x safe
  Step-IsSafe (narrow x to now_ms) safe =
      restrict_grant-IsSafe x.session.grant to now_ms x safe.grant safe
  Step-IsSafe (ended x reason now_ms) safe = close-IsSafe reason now_ms x safe

  keeps : {x y : Context} → Reach c x y → IsSafe x.session → IsSafe y.session
  keeps here safe = safe
  keeps (next r st) safe = Step-IsSafe st (keeps r safe)

  -- After any sequence of calls on a new session, whatever they return: a grant is held only in
  -- the established state, is this session's and is within what was requested; the consent is
  -- within the request; the PIN has been answered three times at most.
  pub Reach-IsSafe :
      (session_id peer_id : List ℕ) (requested : SessionCaps) (now_ms : ℕ) (book : AddressBook)
      (audit : AuditLog) (y : Context)
      → Reach c
          (record {
            session = new session_id peer_id requested now_ms;
            address_book = book;
            audit = audit;
          })
          y
      → IsSafe y.session
  unfolding new
  Reach-IsSafe session_id peer_id requested now_ms book audit y r =
      keeps r (record { grant = tt; consent = tt; attempts = tt })
