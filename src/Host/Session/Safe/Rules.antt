-- ===== src/Host/Session/Safe/Rules.antt =====
-- The steps of the methods keep a session safe: rules for their chains.
use remote.Prelude.{
  sym, subst, ℕ, List, String, ◌≡◌, ◌≢◌, ◌≤◌, true, false, Bool, Option, none, some, Result, ok,
  err, inl, inr, Bool-cases, Option-cases, IfSome,
}
use remote.Prelude.Bytes.{codes}
use remote.Prelude.Stateful.{after}
use remote.Proto.Caps.{IsWithin}
use remote.Crypto.Primitives.{Primitives}
use remote.Crypto.Pake.{PinVerifier, confirm, confirm_matches}
use remote.Crypto.Identity.{PublicIdentity, PeerTrust, check_and_pin}
use remote.Crypto.Binding.{BindingVerifier, BindingProof, BindingError}
use remote.Crypto.Token.{TokenError, AccessToken}
use remote.Host.Session.State.{
  SessionState, failed, set_state, SessionError, established, HostSession, Context, M, require,
  or_wrong_state,
}
use remote.Host.Session.Authorise.{
  take_key, check_confirmation, check_book, judge, check_binding, judge_binding, judge_token,
}
use remote.Host.Session.Safe.{IsSafe, Grants}

-- A session without a grant: safe in every state.
pub record IsBare (s : HostSession) : Type 0 where
  pub grant : s.grant ≡ none
  pub consent : IfSome (λ caps. IsWithin caps s.requested_caps) s.consented_caps
  pub attempts : IfSome (λ (v : PinVerifier). v.pin.attempts ≤ 3) s.pin

pub IsBare-IsSafe : (s : HostSession) → IsBare s → IsSafe s
IsBare-IsSafe s b = record {
  grant = subst (IfSome (Grants s)) (sym b.grant) tt;
  consent = b.consent;
  attempts = b.attempts;
}

pub IsSafe-IsBare : (s : HostSession) → IsSafe s → s.state ≢ established → IsBare s
IsSafe-IsBare s safe open_state = record {
  grant = elim (Option-cases s.grant) [
    | inl e ↦ e
    | inr (g, e) ↦ absurd (open_state (subst (IfSome (Grants s)) e safe.grant).0)
  ];
  consent = safe.consent;
  attempts = safe.attempts;
}

-- How a step ends: with `Q` if it succeeds, and in any case safe.
abbrev pub Ends : {A : Type 0} → (A → Context → Type 0) → Context × Result SessionError A → Type 0
Ends Q (t, ok a) = Q a t
Ends Q (t, err e) = IsSafe t.session

pub Ends-after :
    {A C : Type 0} (Q : A → Context → Type 0) (R : C → Context → Type 0)
    (r : Context × Result SessionError A) (f : A → M C)
    → Ends Q r
    → ((a : A) (t : Context) → Q a t → Ends R (f a t))
    → Ends R (after r f)
Ends-after Q R (t, ok a) f q k = k a t q
Ends-after Q R (t, err e) f q k = q

pub Ends-IsSafe :
    {A : Type 0} (r : Context × Result SessionError A)
    → Ends (λ a t. IsSafe t.session) r
    → IsSafe r.0.session
Ends-IsSafe (t, ok a) h = h
Ends-IsSafe (t, err e) h = h

-- A predicate on sessions without a grant that does not look at the state and the key.
pub record IsOpen (P : HostSession → Type 0) : Type 0 where
  pub bare : (s : HostSession) → P s → IsBare s
  pub keyless : (s : HostSession) → P s → P (record s { pending_key = none })

fail_with-IsSafe :
    (reason : String) (x : Context)
    → IsBare x.session
    → IsSafe (set_state (failed reason) x).session
fail_with-IsSafe reason x b =
    IsBare-IsSafe _ (record { grant = b.grant; consent = b.consent; attempts = b.attempts })

pub require-Ends :
    (test : SessionState → Bool) (x : Context)
    → test established ≡ false
    → IsSafe x.session
    → Ends (λ u t. IsBare t.session) (require test x)
require-Ends test x shut safe = elim (Bool-cases (test x.session.state)) [
  | inl e ↦
      rw e (IsSafe-IsBare x.session safe (λ h. let at : test established ≡ true = rw (← h) e in cc))
  | inr e ↦ rw e safe
]

pub or_wrong_state-Ends :
    {A : Type 0} (Q : A → Context → Type 0) (o : Option A) (x : Context)
    → IsBare x.session
    → IfSome (λ a. Q a x) o
    → Ends Q (or_wrong_state o x)
or_wrong_state-Ends Q none x b h = IsBare-IsSafe x.session b
or_wrong_state-Ends Q (some a) x b h = h

module _ (P : HostSession → Type 0) (open_p : IsOpen P) where
  pub take_key-Ends : (x : Context) → P x.session → Ends (λ key t. P t.session) (take_key x)
  unfolding take_key
  take_key-Ends x p = elim (Option-cases x.session.pending_key) [
    | inl e ↦ rw e (IsBare-IsSafe _ (open_p.bare _ (open_p.keyless x.session p)))
    | inr (k, e) ↦ rw e (open_p.keyless x.session p)
  ]

  pub check_confirmation-Ends :
      (c : Primitives) (key tag : List ℕ) (x : Context)
      → P x.session
      → Ends (λ u t. P t.session) (check_confirmation c key tag x)
  unfolding check_confirmation
  check_confirmation-Ends c key tag x p =
      elim (Bool-cases
        (confirm_matches (confirm c key (codes "controller") x.session.session_id) tag)) [
          | inl e ↦ rw e p
          | inr e ↦ rw e (fail_with-IsSafe _ x (open_p.bare x.session p))
        ]

  judge-Ends :
      (trust : PeerTrust) (x : Context) → P x.session → Ends (λ u t. P t.session) (judge trust x)
  unfolding judge
  judge-Ends PeerTrust.key_changed x p = fail_with-IsSafe _ x (open_p.bare x.session p)
  judge-Ends PeerTrust.first_contact x p = p
  judge-Ends PeerTrust.known x p = p

  pub check_book-Ends :
      (i : PublicIdentity) (x : Context) → P x.session → Ends (λ u t. P t.session) (check_book i x)
  unfolding check_book
  check_book-Ends i x p = judge-Ends (check_and_pin x.address_book i).1 _ p

  judge_binding-Ends :
      (r : Result BindingError (Unit {0})) (x : Context)
      → P x.session
      → Ends (λ u t. P t.session) (judge_binding r x)
  unfolding judge_binding
  judge_binding-Ends (ok u) x p = p
  judge_binding-Ends (err e) x p = fail_with-IsSafe _ x (open_p.bare x.session p)

  pub check_binding-Ends :
      (c : Primitives) (v : BindingVerifier) (proof : BindingProof) (x : Context)
      → P x.session
      → Ends (λ u t. P t.session) (check_binding c v proof x)
  unfolding check_binding
  check_binding-Ends c v proof x p = judge_binding-Ends _ x p

  pub judge_token-Ends :
      (r : Result TokenError AccessToken) (x : Context)
      → P x.session
      → Ends (λ a t. P t.session) (judge_token r x)
  unfolding judge_token
  judge_token-Ends (ok a) x p = p
  judge_token-Ends (err e) x p = fail_with-IsSafe _ x (open_p.bare x.session p)
