-- ===== src/Proto/Decode/Session.antt =====
-- control.rs, `decode_payload`: Ping, Pong, EndSession, Error.
use remote.Prelude.{ℕ, List, none, some, ltb, ok, err}
use remote.Proto.Reader.{
  Parser, ◌>>=◌, ◌>>◌, pure, reject_if, length_cap, invalid_text, DecodeError, take, u16, u32,
}
use remote.Proto.Payload.{Payload}
use remote.Proto.Utf8.{chars}

unfoldable pub decode_ping : Parser Payload
decode_ping = do token ← u32; pure (Payload.ping token)

unfoldable pub decode_pong : Parser Payload
decode_pong = do token ← u32; host_delay_us ← u16; pure (Payload.pong token host_delay_us)

unfoldable pub decode_end_session : Parser Payload
decode_end_session = do code ← u16; pure (Payload.end_session code)

-- `str::from_utf8(raw).map_err(..)?`: the code points of the text.
unfoldable pub from_utf8 : List ℕ → DecodeError → Parser (List ℕ)
from_utf8 raw e r = elim (chars raw) [ none ↦ err e | some cs ↦ ok (cs, r) ]

unfoldable pub decode_error : Parser Payload
decode_error = do
  code ← u16
  len ← u16
  reject_if (ltb 256 len) (length_cap "message" len 256)
  raw ← take len
  from_utf8 raw (invalid_text "error message is not valid UTF-8")
  pure (Payload.error code raw)
