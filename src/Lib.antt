-- ===== src/Lib.antt =====
-- Verification library of the remote desktop engine (the Rust workspace under crates/).
--
-- A controller sends control frames over several channels; the host decodes them (rda-proto) and
-- hands them to the injector (rda-input), which checks the session's grant, rate limits, the HID
-- allowlist and the blocked combinations, keeps the record of the keys that the peer holds, and
-- calls the platform's backend. Video goes the other way: frames are cut into fragments that the
-- receiver puts together again (rda-decode). A signalling server (rda-signal-server) introduces
-- the two ends and routes their messages, after each has answered a challenge for its key. The
-- ends authenticate each other over the link (rda-session, with rda-crypto): a PIN, bound to the
-- certificates of the connection. The session of rda-host does the same for a PIN or a token, with
-- the consent of the user and an address book, and issues the grant. Losses
-- and bandwidth (rda-telemetry) choose the rung of the encoder (rda-encode).
--
-- Files and the code they model:
--   Prelude           shared names, Boolean tests, lists over the native numbers
--   Proto             crates/rda-proto. Reader, Header, MessageType, Payload, Encode, Decode and
--                     Malformed are control.rs; Utf8 is its truncate_utf8 with what it uses of
--                     Rust's strings; Fragment is fragment_video; Caps is caps.rs (SessionCaps);
--                     Serial is seq.rs. WellFormed says which frames a sender may build; RoundTrip
--                     reads them back.
--   Input             crates/rda-input. Hid is hid.rs; KeyAction, KeySet (a BTreeSet<u16>) and
--                     KeyState are state.rs; Grant is grant.rs; Backend is the trait of
--                     backend/mod.rs; Display and Injector are lib.rs: Injector.State the state
--                     and its monad, Injector.Apply the handlers of `apply`.
--   Crypto            crates/rda-crypto. Primitives is what it calls of other crates; Identity,
--                     Binding, Pake, Token and Sas are the files of these names; DeviceId is
--                     crates/rda-proto/src/ids.rs
--   Host.Session      crates/rda-host/src/session.rs: State the session and its monad, Authorise its
--                     methods, Safe the relation of their calls
--   Session.Auth      crates/rda-session/src/auth.rs: Link the frames and the transport, Run the two
--                     programs
--   Telemetry         crates/rda-telemetry/src/lib.rs: Loss, Sequence and Ladder, whose Dwell is the
--                     controller over a sequence of calls
--   Encode.Rate       crates/rda-encode/src/rate.rs
--   Capture.Sink      crates/rda-capture/src/sink.rs
--   Signal.Challenge  crates/rda-signal-server/src/auth.rs
--   Signal.Registry   crates/rda-signal-server/src/registry.rs
--   Signal.Backoff    crates/rda-signal-client/src/backoff.rs
--   Video.Reassembly  crates/rda-decode/src/reassembly.rs
--   Video.Jitter      crates/rda-decode/src/jitter.rs; Playout is its poll
--   Video             Fragments, Accepted and Transfer take frames from the sender's fragment_video
--                     to the receiver's accept
--   Tests             the theorems at concrete inputs
--
-- Conventions. Numbers are natural numbers and an integer of w bits keeps its wrap-around where
-- the source can wrap; bytes are numbers, and a string is the list of its bytes where its length
-- matters. A function on `&mut self` returns the new state beside its result, and a failing one
-- keeps the changes it made before it failed. Millisecond clocks are arguments, as in the source.
-- Statistics counters (u64) and sums of u64 clocks do not wrap. A reader of bytes is the list of
-- those still to read. The platform backend is a parameter: any state with any answers; so is the
-- jitter estimator, which is floating point. The eviction loop of the reassembler takes as many
-- rounds as there are entries, each of which removes one. An index outside a frame's slots, a
-- panic in Rust, is an outcome of its own.
--
-- Hashes, signatures, SPAKE2, base64 and CBOR are parameters, with the laws that their
-- documentation states where a theorem needs them; random numbers are arguments. A toy instance of
-- all of them, lawful and without security, carries the examples. A program of the link reads its
-- transport's events from a list, in which a timeout is an event of its own.
--
-- Not modelled: codecs, capture, transport, the keystore, the negotiation of capabilities, the
-- client's session, the host's serving loop, the interface for the app, the estimators in floating
-- point (bitrate, jitter), round-trip times, and all asynchronous I/O.
pub mod Prelude
pub mod Crypto
pub mod Session
pub mod Telemetry
pub mod Encode
pub mod Capture
pub mod Host
pub mod Proto
pub mod Input
pub mod Signal
pub mod Video
mod Tests
