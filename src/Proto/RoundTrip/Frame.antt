-- ===== src/Proto/RoundTrip/Frame.antt =====
-- Whole payloads and whole frames, written and read back.
use remote.Prelude.{
  subst, inr, inl, ℕ, ◌≡◌, ok, some, List, ◌++◌, length, arith, refl, ltb_of_le, Option-cases,
}
use remote.Proto.MessageType.{MessageType, from_u8}
use remote.Proto.Payload.{Payload}
use remote.Proto.Header
use remote.Proto.Header.{Header, encode_into, header_len}
use remote.Proto.Encode.{ControlFrame, encode, encode_payload, header_code, payload_type}
use remote.Proto.WellFormed.{IsWire, IsOpaque, IsHeader, IsFrame}
use remote.Proto.Decode.{value, decode_payload, decode_typed, decode}
use remote.Proto.RoundTrip.Session.{ping_back, pong_back, end_session_back, error_back}
use remote.Proto.RoundTrip.Input.{
  mouse_move_back, mouse_move_relative_back, mouse_button_back, mouse_wheel_back, key_event_back,
  key_state_sync_back, text_input_back,
}
use remote.Proto.RoundTrip.Media.{
  request_keyframe_back, ltr_ack_back, cursor_update_back, cursor_shape_back, video_frame_back,
  qos_report_back,
}

opaque_typed :
    (ty : MessageType) (t : ℕ) (body : List ℕ)
    → IsOpaque (some ty)
    → value (decode_typed ty t body body) ≡ ok (Payload.unknown t body)
unfolding decode_typed
opaque_typed MessageType.hello t body h = refl
opaque_typed _ t body h = ground arith

opaque_back :
    (t : ℕ) (body : List ℕ)
    → IsOpaque (from_u8 t)
    → decode_payload t body ≡ ok (Payload.unknown t body)
unfolding decode_payload
opaque_back t body h = elim (Option-cases (from_u8 t)) [
  | inl e ↦ rw (e, decode_payload)
  | inr (ty, e) ↦ rw (e, decode_payload) (opaque_typed ty t body (subst IsOpaque e h))
]

-- A payload that a sender may build is read back from its bytes under its own code.
pub decode_payload-encode_payload :
    (p : Payload) → IsWire p → decode_payload (header_code p) (encode_payload p) ≡ ok p
unfolding decode_payload decode_typed payload_type from_u8 encode_payload
decode_payload-encode_payload (Payload.ping token) h = ping_back token h
decode_payload-encode_payload (Payload.pong token d) h = pong_back token d h
decode_payload-encode_payload (Payload.end_session c) h = end_session_back c h
decode_payload-encode_payload (Payload.error c s) h = error_back c s h
decode_payload-encode_payload (Payload.mouse_move d f x y m) h = mouse_move_back d f x y m h
decode_payload-encode_payload (Payload.mouse_move_relative dx dy m d) h =
    mouse_move_relative_back dx dy m d h
decode_payload-encode_payload (Payload.mouse_button b a x y m d c) h =
    mouse_button_back b a x y m d c h
decode_payload-encode_payload (Payload.mouse_wheel v w m d f) h = mouse_wheel_back v w m d f h
decode_payload-encode_payload (Payload.key_event page u a f m) h = key_event_back page u a f m h
decode_payload-encode_payload (Payload.key_state_sync m a us) h = key_state_sync_back m a us h
decode_payload-encode_payload (Payload.text_input c p s) h = text_input_back c p s h
decode_payload-encode_payload (Payload.request_keyframe m l r) h = request_keyframe_back m l r h
decode_payload-encode_payload (Payload.ltr_ack l f) h = ltr_ack_back l f h
decode_payload-encode_payload (Payload.cursor_update s x y d v) h = cursor_update_back s x y d v h
decode_payload-encode_payload (Payload.cursor_shape s w k x y f b) h =
    cursor_shape_back s w k x y f b h
decode_payload-encode_payload (Payload.video_frame i n c k t p b) h =
    video_frame_back i n c k t p b h
decode_payload-encode_payload (Payload.qos_report q) h = qos_report_back q h
decode_payload-encode_payload (Payload.unknown t body) h = opaque_back t body h

header_back :
    (h : Header) (body : List ℕ) → IsHeader h → Header.decode (encode_into h ++ body) ≡ ok h
unfolding Header.decode encode_into
header_back h body v =
    rw (ltb_of_le (length (encode_into h ++ body)) 8 (omega arith)) (ground arith)

-- Every frame that a sender may build is read back unchanged from its bytes.
pub decode-encode : (f : ControlFrame) → IsFrame f → decode (encode f) ≡ ok f
unfolding decode encode encode_into
decode-encode f v =
    let body : decode_payload f.header.msg_type (encode_payload f.payload) ≡ ok f.payload =
      rw v.type_matches (decode_payload-encode_payload f.payload v.payload_valid) in
    rw (header_back f.header (encode_payload f.payload) v.header_valid, body, decode)
