-- ===== src/Tests/Handshake.antt =====
-- Sessions with the toy cryptography: a PIN, a token, and both programs of the link.
use remote.Prelude.{ℕ, List, [], ◌≡◌, ◌≢◌, refl, true, some, Result, ok, replicate, arith}
use remote.Prelude.Bytes.{codes, lookup}
use remote.Proto.Caps.{SessionCaps, no_caps, clamp_to}
use remote.Input.Grant.{AuditLog, AuthMethod, issue}
use remote.Crypto.Primitives.{Exchange}
use remote.Crypto.Identity.{PeerTrust, public, check_and_pin}
use remote.Crypto.Pake.{confirm, start, finish, six_digits}
use remote.Crypto.Binding.{prove}
use remote.Crypto.Binding.Laws.{verify-prove}
use remote.Crypto.Token
use remote.Crypto.Token.{encode}
use remote.Host.Session.Splice.{token_of_another}
use remote.Host.Session.Sound.{authenticate_with_token_sound}
use remote.Host.Session.Handshake.{complete_pin_auth_accepts}
use remote.Crypto.Token.{session_caps, AccessToken}
use remote.Crypto.Binding
use remote.Crypto.Pake.{finish, start}
use remote.Prelude.{ap}
use remote.Host.Session.State.{
  SessionError, SessionState, Context, PeerCredentials, ConsentDecision, PinAuthResponse, new,
}
use remote.Host.Session.Authorise.{
  apply_consent, begin_pin_auth, complete_pin_auth, authenticate_with_token,
}
use remote.Host.Session.Sound.{PinChecked, IsEstablished, complete_pin_auth_sound}
use remote.Host.Session.Honest.{honest_handshake}
use remote.Host.Session.Safe.{Step, Reach, IsSafe}
use remote.Host.Session.Safe.Keeps.{Reach-IsSafe}
use remote.Tests.Toy.{toy, toy-IsLawful}
use remote.Tests.Trust.{
  controller, seen_by_host, seen_by_controller, seen-IsPaired, thief, other_key, viewer, host,
  the_token, the_token-valid,
}

abbrev empty_log : AuditLog
empty_log = record { entries = []; capacity = 16 }

abbrev full : SessionCaps
full = record no_caps { view = true; input = true }

not_changed : (check_and_pin [] (public toy controller)).1 ≢ PeerTrust.key_changed
unfolding check_and_pin lookup
not_changed e = absurd cc

abbrev start_context : Context
start_context = record {
  session = new (codes "session") controller.device_id full 0;
  address_book = [];
  audit = empty_log;
}

Reach-IsSafe_example :
    IsSafe (apply_consent (ConsentDecision.allow full) 10 7 start_context).0.session
Reach-IsSafe_example =
    Reach-IsSafe toy (codes "session") controller.device_id full 0 [] empty_log
      (apply_consent (ConsentDecision.allow full) 10 7 start_context).0
      (Reach.next Reach.here (Step.consent start_context (ConsentDecision.allow full) 10 7))

-- The whole attended session.
honest_handshake_example :
    (e : Exchange) × (key : List ℕ) × (answer : PinAuthResponse) × (x1 : Context) × (x2 : Context)
    × (x3 : Context) × (apply_consent (ConsentDecision.allow full) 10 123456 start_context
        ≡ (x1, ok tt))
    × (start toy (codes "session") (six_digits 123456) 8 ≡ ok e)
    × (begin_pin_auth toy e.outbound 20 7 x1 ≡ (x2, ok answer))
    × (finish e answer.pake_message ≡ ok key)
    × (answer.confirmation ≡ confirm toy key (codes "host") (codes "session"))
    × (complete_pin_auth toy
          (confirm toy key (codes "controller") (codes "session"))
          (record {
            identity = public toy controller;
            binding = seen_by_host;
            proof = prove toy seen_by_controller controller;
          })
          30
          x2
        ≡ (x3, ok tt))
    × (x3.session.grant
        ≡ some (
            issue
              (codes "session")
              controller.device_id
              (clamp_to full full)
              AuthMethod.session_pin
              30))
honest_handshake_example =
    honest_handshake toy toy-IsLawful (codes "session") controller seen_by_host seen_by_controller
      seen-IsPaired full full [] empty_log 123456 7 8 0 10 20 30 (omega arith) (omega arith)
      not_changed

-- A session whose PIN round is over, and the confirmation of its key.
abbrev confirming : Context
confirming = record start_context {
  session = record (start_context.session) {
    state = SessionState.awaiting_confirmation;
    consented_caps = some full;
    pending_key = some (replicate 32 9);
  };
}

abbrev caller : PeerCredentials
caller = record {
  identity = public toy controller;
  binding = seen_by_host;
  proof = prove toy seen_by_controller controller;
}

abbrev right_tag : List ℕ
right_tag = confirm toy (replicate 32 9) (codes "controller") (codes "session")

confirming-PinChecked : PinChecked toy confirming right_tag caller (replicate 32 9)
unfolding new
confirming-PinChecked = record {
  awaiting = refl;
  derived = refl;
  confirmed = refl;
  unchanged = not_changed;
  bound = verify-prove toy toy-IsLawful seen_by_host seen_by_controller controller seen-IsPaired;
}

abbrev confirmed : Context
confirmed = (complete_pin_auth toy right_tag caller 30 confirming).0

confirming_completes : complete_pin_auth toy right_tag caller 30 confirming ≡ (confirmed, ok tt)
confirming_completes =
    ap (λ r. (confirmed, r))
      (complete_pin_auth_accepts toy confirming right_tag (replicate 32 9) caller full 30
        confirming-PinChecked refl)

complete_pin_auth_sound_example :
    (key : List ℕ) × (caps : SessionCaps) × PinChecked toy confirming right_tag caller key
    × (some full ≡ some caps)
    × IsEstablished confirming confirmed caps AuthMethod.session_pin 30
complete_pin_auth_sound_example =
    complete_pin_auth_sound toy confirming right_tag caller 30 confirmed confirming_completes

-- A thief presents the viewer's token with a binding proof of its own.
abbrev stolen : PeerCredentials
stolen = record {
  identity = viewer;
  binding = seen_by_host;
  proof = prove toy seen_by_controller thief;
}

abbrev dialled : Context
dialled = record {
  session = new (codes "session") thief.device_id full 0;
  address_book = [];
  audit = empty_log;
}

token_of_another_example :
    (y : Context) × (authenticate_with_token toy
        (encode toy the_token)
        host
        []
        stolen
        120000
        dialled
      ≡ (y, ok tt))
    × (y.session.state ≡ SessionState.established)
unfolding new
token_of_another_example =
    token_of_another toy toy-IsLawful thief viewer seen_by_host seen_by_controller
      (encode toy the_token) host [] the_token 120000 dialled seen-IsPaired refl refl
      the_token-valid other_key

-- What the thief's run ends in.
abbrev entered : Context
entered = (authenticate_with_token toy (encode toy the_token) host [] stolen 120000 dialled).0

thief_enters :
    authenticate_with_token toy (encode toy the_token) host [] stolen 120000 dialled
    ≡ (entered, ok tt)
unfolding new
thief_enters =
    let (y, made, established) =
      token_of_another toy toy-IsLawful thief viewer seen_by_host seen_by_controller
        (encode toy the_token) host [] the_token 120000 dialled seen-IsPaired refl refl
        the_token-valid other_key in
    ap (λ r. (entered, r)) (ap (λ (r : Context × Result SessionError (Unit {0})). r.1) made)

authenticate_with_token_sound_example :
    (a : AccessToken) × (true ≡ true)
    × (Token.verify toy [] (encode toy the_token) host viewer 120 ≡ ok a)
    × (Binding.verify toy seen_by_host (prove toy seen_by_controller thief) (some thief.device_id)
        ≡ ok tt)
    × IsEstablished dialled entered
        (clamp_to full (session_caps a.claims))
        AuthMethod.unattended_token
        120000
unfolding new
authenticate_with_token_sound_example =
    authenticate_with_token_sound toy dialled (encode toy the_token) host [] stolen 120000 entered
      thief_enters
