-- ===== src/Proto/RoundTrip/Session.antt =====
-- Session control messages, written and read back.
use remote.Prelude.{ℕ, ◌≡◌, ok, List, length, arith, ltb_of_le}
use remote.Proto.Reader.{u16-cons, u32-cons, take_all, ◌>>=◌}
use remote.Proto.Payload.{Payload}
use remote.Proto.Encode.{encode_payload}
use remote.Proto.WellFormed.{IsWire}
use remote.Proto.Decode.{value}
use remote.Proto.Decode.Session.{decode_ping, decode_pong, decode_end_session, decode_error}
use remote.Proto.RoundTrip.Fields.{be16_value, be32_value, truncate_utf8_short, from_utf8_ok}

pub ping_back :
    (token : ℕ)
    → IsWire (Payload.ping token)
    → value (decode_ping (encode_payload (Payload.ping token))) ≡ ok (Payload.ping token)
unfolding decode_ping encode_payload
ping_back token h = rw (u32-cons, be32_value token h, decode_ping, ◌>>=◌)

pub pong_back :
    (token delay : ℕ)
    → IsWire (Payload.pong token delay)
    → value (decode_pong (encode_payload (Payload.pong token delay)))
      ≡ ok (Payload.pong token delay)
unfolding decode_pong encode_payload
pong_back token delay (ht, hd) =
    rw (u32-cons, u16-cons, be32_value token ht, be16_value delay hd, decode_pong, ◌>>=◌)

pub end_session_back :
    (c : ℕ)
    → IsWire (Payload.end_session c)
    → value (decode_end_session (encode_payload (Payload.end_session c)))
      ≡ ok (Payload.end_session c)
unfolding decode_end_session encode_payload
end_session_back c h = rw (u16-cons, be16_value c h, decode_end_session, ◌>>=◌)

pub error_back :
    (c : ℕ) (message : List ℕ)
    → IsWire (Payload.error c message)
    → value (decode_error (encode_payload (Payload.error c message))) ≡ ok (Payload.error c message)
unfolding decode_error encode_payload
error_back c message (hc, hl, (cs, valid)) =
    let len = be16_value (length message) (omega arith) in
    rw (
      truncate_utf8_short message 256 hl,
      u16-cons,
      u16-cons,
      len,
      ltb_of_le 256 (length message) hl,
      len,
      take_all message,
      from_utf8_ok message cs _ _ valid,
      be16_value c hc,
      decode_error,
      ◌>>=◌,
    )
