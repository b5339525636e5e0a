-- ===== src/Host/Session/Splice.antt =====
-- session.rs, `authenticate_with_token`: the identity that the token is checked against is not
-- compared with the identity that the binding proof is of.
use remote.Prelude.{ℕ, List, ◌≡◌, ◌≢◌, ◌∙◌, ◌/◌, ◌||◌, refl, Result, ok}
use remote.Prelude.Stateful.{after-eq}
use remote.Crypto.Primitives.{Primitives, IsLawful}
use remote.Crypto.Identity.{Identity, PublicIdentity, public}
use remote.Crypto.Binding.{BindingVerifier, prove}
use remote.Crypto.Binding.Laws.{IsPaired, verify-prove}
use remote.Crypto.Token
use remote.Crypto.Token.{TokenStore, TokenError, AccessToken}
use remote.Host.Session.State.{
  awaiting_consent, established, is_awaiting_consent, is_authenticating, Context, PeerCredentials,
}
use remote.Host.Session.Authorise.{authenticate_with_token, judge_token, establish_by_token}
use remote.Host.Session.Handshake.{require_accepts, check_binding_accepts}
use remote.Host.Session.Sound.{establish_by_token_lem}

judge_token_accepts :
    (r : Result TokenError AccessToken) (t : AccessToken) (x : Context)
    → r ≡ ok t
    → judge_token r x ≡ (x, ok t)
unfolding judge_token
judge_token_accepts r t x h = rw (judge_token, h) refl

established_ok :
    (c : Primitives) (peer : PeerCredentials) (t : AccessToken) (now_ms : ℕ) (x : Context)
    → establish_by_token c peer t now_ms x ≡ ((establish_by_token c peer t now_ms x).0, ok tt)
unfolding establish_by_token
established_ok c peer t now_ms x = refl

-- Whoever holds a token of another device, and the key of the device that the session is with, is
-- admitted by naming the other device's identity: the bearer's key may differ from the token's.
pub token_of_another :
    (c : Primitives) (law : IsLawful c) (bearer : Identity) (subject : PublicIdentity)
    (v w : BindingVerifier) (encoded : List ℕ) (host : Identity) (tokens : TokenStore)
    (t : AccessToken) (now_ms : ℕ) (x : Context)
    → IsPaired v w
    → x.session.state ≡ awaiting_consent
    → x.session.peer_id ≡ bearer.device_id
    → Token.verify c tokens encoded host subject (now_ms / 1000) ≡ ok t
    → subject.key ≢ (public c bearer).key
    → (y : Context) × (authenticate_with_token c encoded host tokens
          (record { identity = subject; binding = v; proof = prove c w bearer })
          now_ms
          x
        ≡ (y, ok tt))
      × (y.session.state ≡ established)
unfolding authenticate_with_token
token_of_another c law bearer subject v w encoded host tokens t now_ms x paired fresh dialled valid
      other =
    let peer : PeerCredentials = record {
      identity = subject;
      binding = v;
      proof = prove c w bearer;
    } in
    let made : authenticate_with_token c encoded host tokens peer now_ms x
        ≡ establish_by_token c peer t now_ms x =
      after-eq _
        (require_accepts (λ s. is_awaiting_consent s || is_authenticating s) x (rw fresh refl))
      ∙ after-eq _ (judge_token_accepts _ t x valid)
      ∙ after-eq _ (
          check_binding_accepts c v (prove c w bearer) x
            (rw dialled (verify-prove c law v w bearer paired))) in
    let y = (establish_by_token c peer t now_ms x).0 in
    let ended : establish_by_token c peer t now_ms x ≡ (y, ok tt) =
      established_ok c peer t now_ms x in
    (y, made ∙ ended, (establish_by_token_lem c peer t now_ms x y ended).state)
