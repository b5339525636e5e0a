-- ===== src/Tests/Link.antt =====
-- The two programs of the link run against each other with the toy cryptography, and the
-- components of the running session.
use remote.Prelude.{
  ◌⊎◌, ◌+◌, ◌<◌, bytes_eq, ℕ, List, [], ◌∷◌, ◌≡◌, ◌≢◌, ◌≤◌, ◌-◌, refl, false, true, Option, none,
  some, ok, replicate, arith, String,
}
use remote.Prelude.Bytes.{codes}
use remote.Proto.Caps.{SessionCaps, no_caps}
use remote.Crypto.DeviceId.{device_id_from_pubkey}
use remote.Crypto.Identity.{Identity, public, from_signing_key}
use remote.Crypto.Identity.Trust.{IsDerived}
use remote.Crypto.Binding.{PeerRole, transcript_hash}
use remote.Crypto.Binding
use remote.Crypto.Sas.{short_authentication_string}
use remote.Session.Auth.Link.{Frame, ReadyBody}
use remote.Session.Auth.Run.{
  Authenticated, ready_of, authenticate_as_controller, authenticate_as_host,
}
use remote.Session.Auth.Agreement.{link, delivered}
use remote.Session.Auth.Sound.{Round, Confirmed, authenticate_as_host_sound}
use remote.Session.Auth.Link.{Link, both}
use remote.Crypto.Binding.{Fingerprint}
use remote.Session.Auth.Both.{authenticate_both}
use remote.Tests.Toy.{toy, toy-IsLawful, codecs, codecs-AreLawful}
use remote.Tests.Trust.{pin, pin-is_usable, pin-all_digits}
use remote.Telemetry.Sequence.{SequenceTracker, observe, observe_swap}
use remote.Telemetry.Ladder.{required, select_rung, update, retarget, settle, select_index}
use remote.Telemetry.Ladder.Dwell.{Observation, selected, SelectedSince, update_changes}
use remote.Telemetry.Ladder.Dwell
use remote.Encode.Rate.{RateController, Event, Spaced, idr_times, requested, idr_times-Spaced}
use remote.Capture.Sink.{Sink, Call, published, polled, latest, run-latest}
use remote.Capture.Sink
use remote.Signal.Challenge.{Challenge, Register, IsProved, registered_sound, signing_input}
use remote.Signal.Challenge

from_signing_key-IsDerived : (k : List ℕ) → IsDerived toy (public toy (from_signing_key toy k))
unfolding from_signing_key public
from_signing_key-IsDerived k = refl

abbrev viewer_caps : SessionCaps
viewer_caps = record no_caps { view = true }

abbrev caller : Identity
caller = from_signing_key toy (3 ∷ [])

abbrev callee : Identity
callee = from_signing_key toy (5 ∷ [])

abbrev session : List ℕ
session = codes "session"

abbrev ready : ReadyBody
ready = ready_of viewer_caps (
    short_authentication_string toy
      (transcript_hash toy (
        Binding.new session PeerRole.host (replicate 32 2) (replicate 32 1) (replicate 32 4)
          (replicate 32 3)))
      session)

-- Both programs succeed on what the other one sent.
abbrev BothRun : ℕ → ℕ → Type 0
BothRun random_c random_h =
    (from_controller : List Frame) × (from_host : List Frame) × (sas : Option (List String))
    × (authenticate_as_controller toy (codecs ready) session caller pin.digits (replicate 32 1)
          random_c (link (replicate 32 3) (replicate 32 4) (delivered from_host) [])
        ≡ (
          link (replicate 32 3) (replicate 32 4) [] from_controller,
          ok (record { peer = public toy callee; caps = viewer_caps; sas = sas }),
        ))
    × (authenticate_as_host toy (codecs ready) session callee pin viewer_caps 1000 (replicate 32 2)
          random_h (link (replicate 32 4) (replicate 32 3) (delivered from_controller) [])
        ≡ (
          link (replicate 32 4) (replicate 32 3) [] from_host,
          ok (record { peer = public toy caller; caps = viewer_caps; sas = sas }),
        ))

authenticate_both_example : BothRun 8 7
authenticate_both_example =
    authenticate_both toy toy-IsLawful (codecs ready) session caller callee
      (from_signing_key-IsDerived (3 ∷ [])) (from_signing_key-IsDerived (5 ∷ [])) pin viewer_caps
      1000 (replicate 32 1) (replicate 32 2) (replicate 32 3) (replicate 32 4) 8 7
      (codecs-AreLawful ready) refl refl refl pin-all_digits pin-is_usable

-- The host's program, fed what the controller sent.
linked : BothRun 9 6
linked =
    authenticate_both toy toy-IsLawful (codecs ready) session caller callee
      (from_signing_key-IsDerived (3 ∷ [])) (from_signing_key-IsDerived (5 ∷ [])) pin viewer_caps
      1000 (replicate 32 1) (replicate 32 2) (replicate 32 3) (replicate 32 4) 9 6
      (codecs-AreLawful ready) refl refl refl pin-all_digits pin-is_usable

abbrev host_link : Link
host_link = link (replicate 32 4) (replicate 32 3) (delivered linked.0) []

abbrev host_end : Link
host_end = link (replicate 32 4) (replicate 32 3) [] linked.1

abbrev outcome : Authenticated
outcome = record { peer = public toy caller; caps = viewer_caps; sas = linked.2 }

authenticate_as_host_sound_example :
    (local_fp : Fingerprint) × (remote_fp : Fingerprint) × (peer_nonce : List ℕ) × (message : List
      ℕ)
    × (key : List ℕ) × (both host_link.local_fingerprint host_link.remote_fingerprint
        ≡ ok (local_fp, remote_fp))
    × Round toy (codecs ready) session viewer_caps host_end outcome pin 1000 6 message key
    × Confirmed toy
        (codecs ready)
        session
        key
        (Binding.new session PeerRole.host (replicate 32 2) peer_nonce local_fp remote_fp)
        host_link
        (public toy caller)
    × IsDerived toy (public toy caller)
    × (viewer_caps ≡ viewer_caps)
authenticate_as_host_sound_example =
    authenticate_as_host_sound toy (codecs ready) session viewer_caps host_end outcome callee pin
      1000 (replicate 32 2) 6 host_link linked.4

-- Requests that come faster than IDRs are granted.
abbrev encoder : RateController
encoder = record {
  last_idr_ms = none;
  idr_budget_until_ms = 0;
  acked_ltr = none;
  idr_count = 0;
  ltr_recovery_count = 0;
  suppressed_count = 0;
}

abbrev requests : List Event
requests = requested none 5 ∷ requested none 700 ∷ requested none 1005 ∷ []

idr_times-Spaced_example : Spaced none (idr_times encoder requests)
idr_times-Spaced_example = idr_times-Spaced encoder requests

abbrev empty_sink : Sink ℕ
empty_sink = record { slot = none; produced = 0; consumed = 0; dropped = 0 }

abbrev calls : List (Call ℕ)
calls = published 1 ∷ published 2 ∷ polled ∷ polled ∷ published 3 ∷ polled ∷ []

run-latest_example : (Sink.run ℕ empty_sink calls).1 ≡ latest ℕ none calls
run-latest_example = run-latest ℕ empty_sink calls

-- Across the wrap of the sequence numbers.
abbrev tracker : SequenceTracker
tracker = record { highest = some 65534; received = 10; lost = 0 }

observe_swap_example : observe (observe tracker 0) 2 ≡ observe (observe tracker 2) 0
observe_swap_example =
    observe_swap tracker 65534 2 4 (omega arith) (omega arith) (omega arith) (omega arith) refl
      (omega arith)

-- A ladder that has wanted a low rung for two seconds.
abbrev starved : ℕ → Observation
starved now_ms = record { bwe_bps = 0; loss_permille = 0; now_ms = now_ms }

descends :
    (Dwell.run (starved 2000 ∷ starved 900 ∷ starved 0 ∷ [])).current
    ≢ (Dwell.run (starved 900 ∷ starved 0 ∷ [])).current
unfolding Dwell.run update retarget settle select_rung select_index required
descends e = omega arith

update_changes_example :
    ((Dwell.run (starved 2000 ∷ starved 900 ∷ starved 0 ∷ [])).current ≡ selected (starved 2000))
    × ((since : ℕ) × SelectedSince
          (selected (starved 2000))
          since
          (starved 2000 ∷ starved 900 ∷ starved 0 ∷ [])
        × ((((Dwell.run (starved 900 ∷ starved 0 ∷ [])).current < selected (starved 2000))
              × (since + 2000 ≤ 2000))
            ⊎ ((selected (starved 2000) < (Dwell.run (starved 900 ∷ starved 0 ∷ [])).current)
                × (since + 10000 ≤ 2000))))
update_changes_example = update_changes (starved 900 ∷ starved 0 ∷ []) (starved 2000) descends

-- A device that answers its challenge.
abbrev challenge : Challenge
challenge = record { nonce = replicate 32 9; issued_ms = 100; spent = false }

abbrev answer : Register
unfolding from_signing_key device_id_from_pubkey
answer = record {
  device_id = callee.device_id;
  pubkey = toy.verifying_key (5 ∷ []);
  sig = toy.sign (5 ∷ []) (signing_input challenge.nonce callee.device_id Challenge.host);
  role = Challenge.host;
}

answered :
    Challenge.verify toy answer 500 challenge
    ≡ (record challenge { spent = true }, ok (toy.verifying_key (5 ∷ [])))
unfolding Challenge.verify Challenge.check_pubkey Challenge.check_sig Challenge.check_key
    Challenge.decoded answer bytes_eq signing_input from_signing_key device_id_from_pubkey
answered = refl

registered_sound_example :
    (false ≡ false)
    × (500 - 100 ≤ 60000)
    × (true ≡ true)
    × IsProved toy challenge.nonce answer (toy.verifying_key (5 ∷ []))
registered_sound_example =
    registered_sound toy answer 500 challenge (record challenge { spent = true })
      (toy.verifying_key (5 ∷ [])) answered
