-- ===== src/Session/Auth/Link.antt =====
-- auth.rs: the messages of the handshake, and the session that carries them. The session is its two
-- fingerprints, the events that arrive and the frames that were sent; CBOR is a parameter.
use remote.Prelude.{
  ℕ, List, [], ◌∷◌, ◌++◌, ◌≡◌, ◌==◌, Bool, Option, none, some, String, Result, ok, err,
  if◌then◌else◌, length,
}
use remote.Prelude.Stateful.{Stateful, pure, fail, ◌>>=◌}
use remote.Crypto.Binding.{Fingerprint}

pub data AuthError : Type 0 where
  transport malformed unexpected bad_pin binding_failed no_certificate timed_out closed : AuthError

pub record HelloBody : Type 0 where
  pub pubkey : List ℕ
  pub nonce : List ℕ
  pub fingerprint : List ℕ

pub record PakeBody : Type 0 where
  pub message : List ℕ
  pub confirm : Option (List ℕ)

pub record ConfirmBody : Type 0 where
  pub confirm : List ℕ
  pub signature : List ℕ

pub record ReadyBody : Type 0 where
  pub caps : List String
  pub sas : List String

-- ciborium at one of these types.
pub record Cbor (T : Type 0) : Type 0 where
  pub into_writer : T → List ℕ
  pub from_reader : List ℕ → Option T

pub record Codecs : Type 0 where
  pub hello : Cbor HelloBody
  pub pake : Cbor PakeBody
  pub confirm : Cbor ConfirmBody
  pub ready : Cbor ReadyBody

abbrev pub ReadsBack : {T : Type 0} → Cbor T → Type 0
ReadsBack {T} c = (t : T) → c.from_reader (c.into_writer t) ≡ some t

-- What is written is read back: every body of byte strings, and this grant with its texts.
pub record AreLawful (k : Codecs) (granted : ReadyBody) : Type 0 where
  pub hello : ReadsBack k.hello
  pub pake : ReadsBack k.pake
  pub confirm : ReadsBack k.confirm
  pub ready : k.ready.from_reader (k.ready.into_writer granted) ≡ some granted

-- A control frame with an opaque body, or one that the codec reads itself.
pub data Frame : Type 0 where
  opaque : (msg_type : ℕ) (body : List ℕ) (sequence : ℕ) → Frame
  typed : Frame

-- What `next_event` gives: a control frame, another event, the end, or nothing in time.
pub data Event : Type 0 where
  frame : Frame → Event
  other ended late : Event

pub record Link : Type 0 where
  pub local_fingerprint : Option Fingerprint
  pub remote_fingerprint : Option Fingerprint
  pub incoming : List Event
  pub sent : List Frame
  -- Whether the transport takes the frame that is sent after so many others.
  pub alive : ℕ → Bool

abbrev pub M : Type 0 → Type 0
M A = Stateful Link AuthError A

-- The loop of `next_frame` over the events; none of them left is the closed stream.
unfoldable pub next_of : List Event → List Event × Result AuthError Frame
next_of [] = ([], err closed)
next_of (frame f ∷ rest) = (rest, ok f)
next_of (ended ∷ rest) = (rest, err closed)
next_of (late ∷ rest) = (rest, err timed_out)
next_of (other ∷ rest) = next_of rest

unfoldable pub next_frame : M Frame
unfolding next_of
next_frame l = let (rest, result) = next_of l.incoming in (record l { incoming = rest }, result)

unfoldable pub send : Frame → M (Unit {0})
send f l =
    if l.alive (length l.sent)
    then (record l { sent = l.sent ++ f ∷ [] }, ok tt)
    else (l, err transport)

module _ {T : Type 0} (c : Cbor T) where
  unfoldable pub encode : ℕ → T → ℕ → Frame
  encode kind body sequence = opaque kind (c.into_writer body) sequence

  abbrev pub read_body : Option T → Result AuthError T
  read_body none = err malformed
  read_body (some t) = ok t

  unfoldable pub decode : Frame → ℕ → Result AuthError T
  decode typed expect = err unexpected
  decode (opaque msg_type body sequence) expect =
      if msg_type == expect then read_body (c.from_reader body) else err unexpected

-- `?` on a result.
abbrev pub lift : {A : Type 0} → Result AuthError A → M A
lift (ok a) = pure a
lift (err e) = fail e

-- `decode(&next_frame(session).await?, expect)?`.
unfoldable pub receive : {T : Type 0} → Cbor T → ℕ → M T
receive c expect = do f ← next_frame; lift (decode c f expect)

-- `fingerprints`.
abbrev pub both :
    Option Fingerprint → Option Fingerprint → Result AuthError (Fingerprint × Fingerprint)
both none b = err no_certificate
both (some a) none = err no_certificate
both (some a) (some b) = ok (a, b)

unfoldable pub fingerprints : M (Fingerprint × Fingerprint)
fingerprints l = lift (both l.local_fingerprint l.remote_fingerprint) l
