-- ===== src/Proto/Decode.antt =====
-- control.rs, decoding: `decode_payload` and `ControlFrame::decode`.
pub mod Fields
pub mod Session
pub mod Input
pub mod Media
use remote.Prelude.{ℕ, List, Option, none, some, Result, ok, err, drop}
use remote.Proto.Reader.{DecodeError, Parser, pure}
use remote.Proto.MessageType.{MessageType, from_u8}
use remote.Proto.Payload.{Payload}
use remote.Proto.Header
use remote.Proto.Header.{Header, header_len}
use remote.Proto.Encode.{ControlFrame}
use Session.{decode_ping, decode_pong, decode_end_session, decode_error}
use Input.{
  decode_mouse_move, decode_mouse_move_relative, decode_mouse_button, decode_mouse_wheel,
  decode_key_event, decode_key_state_sync, decode_text_input,
}
use Media.{
  decode_request_keyframe, decode_ltr_ack, decode_cursor_update, decode_cursor_shape,
  decode_video_frame, decode_qos_report,
}

-- The arms of the `match ty`; the handshake and clipboard bodies stay opaque.
unfoldable pub decode_typed : MessageType → ℕ → List ℕ → Parser Payload
decode_typed MessageType.ping t body = decode_ping
decode_typed MessageType.pong t body = decode_pong
decode_typed MessageType.end_session t body = decode_end_session
decode_typed MessageType.error t body = decode_error
decode_typed MessageType.mouse_move t body = decode_mouse_move
decode_typed MessageType.mouse_move_relative t body = decode_mouse_move_relative
decode_typed MessageType.mouse_button t body = decode_mouse_button
decode_typed MessageType.mouse_wheel t body = decode_mouse_wheel
decode_typed MessageType.key_event t body = decode_key_event
decode_typed MessageType.key_state_sync t body = decode_key_state_sync
decode_typed MessageType.text_input t body = decode_text_input
decode_typed MessageType.request_keyframe t body = decode_request_keyframe
decode_typed MessageType.ltr_ack t body = decode_ltr_ack
decode_typed MessageType.cursor_update t body = decode_cursor_update
decode_typed MessageType.cursor_shape t body = decode_cursor_shape
decode_typed MessageType.video_frame t body = decode_video_frame
decode_typed MessageType.qos_report t body = decode_qos_report
decode_typed _ t body = pure (Payload.unknown t body)

-- A parser on a whole body; what it leaves unread is ignored.
abbrev pub value : {A : Type 0} → Result DecodeError (A × List ℕ) → Result DecodeError A
value (ok (a, r)) = ok a
value (err e) = err e

unfoldable pub decode_payload : ℕ → List ℕ → Result DecodeError Payload
decode_payload msg_type body = elim (from_u8 msg_type) [
  | none ↦ ok (Payload.unknown msg_type body)
  | some ty ↦ value (decode_typed ty msg_type body body)
]

unfoldable pub decode : List ℕ → Result DecodeError ControlFrame
decode buf = elim (Header.decode buf) [
  | err e ↦ err e
  | ok header ↦ elim (decode_payload header.msg_type (drop header_len buf)) [
    | err e ↦ err e
    | ok payload ↦ ok (record { header = header; payload = payload })
  ]
]
