-- ===== src/Crypto/Pake.antt =====
-- crates/rda-crypto/src/pake.rs: PIN authentication by SPAKE2, its attempts counted.
pub mod Agreement
use remote.Prelude.{
  ◌||◌, ℕ, List, [], ◌∷◌, ◌++◌, ◌+◌, ◌-◌, ◌/◌, ◌%◌, ◌==◌, ◌&&◌, ltb, leb, Bool, true, false, Option,
  none, some, Result, ok, err, not, if◌then◌else◌, length, bytes_eq,
}
use remote.Prelude.Bytes.{codes}
use remote.Prelude.Stateful.{Stateful}
use remote.Crypto.Primitives.{Primitives, Exchange}

abbrev pub pin_domain : List ℕ
pin_domain = codes "RDA-v1-pin"

abbrev pub id_controller : List ℕ
id_controller = codes "RDA-v1-controller"

abbrev pub id_host : List ℕ
id_host = codes "RDA-v1-host"

abbrev pub pin_digits : ℕ
pin_digits = 6

abbrev pub max_pin_attempts : ℕ
max_pin_attempts = 3

abbrev pub pin_ttl_ms : ℕ
pin_ttl_ms = 300000

pub data PakeError : Type 0 where
  failed malformed_pin expired attempts_exceeded : PakeError

pub record SessionPin : Type 0 where
  pub digits : List ℕ
  pub issued_ms : ℕ
  pub attempts : ℕ  -- u32
  pub consumed : Bool

-- A decimal digit of a number below ten of its units.
abbrev digit : ℕ → ℕ
digit n = b'0' + n % 10

-- `format!("{value:06}")` below a million.
unfoldable pub six_digits : ℕ → List ℕ
six_digits value =
    digit (value / 100000)
    ∷ digit (value / 10000)
    ∷ digit (value / 1000)
    ∷ digit (value / 100)
    ∷ digit (value / 10)
    ∷ digit value
    ∷ []

-- `SessionPin::generate`, with the random number below a million.
unfoldable pub generate : ℕ → ℕ → SessionPin
unfolding six_digits
generate value now_ms = record {
  digits = six_digits value;
  issued_ms = now_ms;
  attempts = 0;
  consumed = false;
}

-- `.all(|b| b.is_ascii_digit())`.
unfoldable pub all_digits : List ℕ → Bool
all_digits [] = true
all_digits (b ∷ bs) = leb b'0' b && leb b b'9' && all_digits bs

unfoldable pub from_digits : List ℕ → ℕ → Result PakeError SessionPin
unfolding all_digits
from_digits digits now_ms =
    if not (length digits == pin_digits) || not (all_digits digits)
    then err malformed_pin
    else ok (record { digits = digits; issued_ms = now_ms; attempts = 0; consumed = false })

unfoldable pub is_usable : SessionPin → ℕ → Bool
is_usable p now_ms =
    not p.consumed && ltb p.attempts max_pin_attempts && leb (now_ms - p.issued_ms) pin_ttl_ms

pub record PinVerifier : Type 0 where
  pub session_id : List ℕ
  pub pin : SessionPin

unfoldable pub attempts_remaining : PinVerifier → ℕ
attempts_remaining v = max_pin_attempts - v.pin.attempts

unfoldable pub consume : PinVerifier → PinVerifier
consume v = record v { pin = record (v.pin) { consumed = true } }

-- `try_into` an array of 32 bytes, and its error.
unfoldable pub as_key : Option (List ℕ) → Result PakeError (List ℕ)
as_key none = err failed
as_key (some key) = if length key == 32 then ok key else err failed

unfoldable pub with_message :
    List ℕ → Result PakeError (List ℕ) → Result PakeError (List ℕ × List ℕ)
with_message outbound (ok key) = ok (outbound, key)
with_message outbound (err e) = err e

module _ (c : Primitives) where
  unfoldable pub pake_password : List ℕ → List ℕ → List ℕ
  pake_password session_id pin = c.sha256 (pin_domain ++ (0 ∷ [] ++ (session_id ++ pin)))

  -- `PinAuth::start` and `finish`: the controller's side.
  unfoldable pub start : List ℕ → List ℕ → ℕ → Result PakeError Exchange
  unfolding all_digits
  start session_id pin random =
      if not (length pin == pin_digits) || not (all_digits pin)
      then err malformed_pin
      else ok (c.start_a (pake_password session_id pin) id_controller id_host random)

  -- The host's SPAKE2 round.
  unfoldable pub exchange_of : PinVerifier → ℕ → Exchange
  exchange_of v random =
      c.start_b (pake_password v.session_id v.pin.digits) id_controller id_host random

  unfoldable pub respond : List ℕ → ℕ → ℕ → Stateful PinVerifier PakeError (List ℕ × List ℕ)
  respond peer_message now_ms random v =
      if not (is_usable v.pin now_ms)
      then (v, err (if leb max_pin_attempts v.pin.attempts then attempts_exceeded else expired))
      else (
        record v { pin = record (v.pin) { attempts = v.pin.attempts + 1 } },
        with_message (exchange_of v random).outbound
            (as_key ((exchange_of v random).finish peer_message)),
      )

  unfoldable pub confirm : List ℕ → List ℕ → List ℕ → List ℕ
  confirm key role session_id =
      c.sha256 (codes "RDA-v1-pin-confirm" ++ (0 ∷ [] ++ (key ++ (role ++ session_id))))

unfoldable pub finish : Exchange → List ℕ → Result PakeError (List ℕ)
finish e peer_message = as_key (e.finish peer_message)

-- The comparison in constant time.
unfoldable pub confirm_matches : List ℕ → List ℕ → Bool
confirm_matches a b = bytes_eq a b
