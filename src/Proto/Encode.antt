-- ===== src/Proto/Encode.antt =====
-- control.rs, `ControlFrame::new`, `encode` and `encode_payload`. What the source appends to `out`
-- is the result here.
use remote.Prelude.{ℕ, ◌+◌, ◌-◌, ◌*◌, List, [], ◌∷◌, ◌++◌, Bool, true, false, length, take, min}
use remote.Prelude.Int.{ℤ, pos, negsuc}
use remote.Proto.MessageType.{MessageType, code}
use remote.Proto.Payload.{
  Payload, MouseButtonId, KeyAction, KeyframeMode, max_pressed_keys, max_text_input,
}
use remote.Proto.Header.{Header, be16, be32, be64, proto_version, with_synthetic, encode_into}
use remote.Proto.Utf8.{truncate_utf8}

pub record ControlFrame : Type 0 where
  pub header : Header
  pub payload : Payload

-- `as u8` of the enums and of bool.
abbrev pub button_code : MouseButtonId → ℕ
button_code MouseButtonId.left = 1
button_code MouseButtonId.right = 2
button_code MouseButtonId.middle = 3
button_code MouseButtonId.x1 = 4
button_code MouseButtonId.x2 = 5

abbrev pub action_code : KeyAction → ℕ
action_code KeyAction.up = 0
action_code KeyAction.down = 1
action_code KeyAction.repeat = 2

abbrev pub mode_code : KeyframeMode → ℕ
mode_code KeyframeMode.idr = 0
mode_code KeyframeMode.ltr = 1

abbrev pub bool_code : Bool → ℕ
bool_code true = 1
bool_code false = 0

-- The two's complement bit pattern of an i16.
abbrev pub as_u16 : ℤ → ℕ
as_u16 (pos n) = n
as_u16 (negsuc n) = 65535 - n

unfoldable pub payload_type : Payload → MessageType
payload_type (Payload.ping token) = MessageType.ping
payload_type (Payload.pong token host_delay_us) = MessageType.pong
payload_type (Payload.end_session c) = MessageType.end_session
payload_type (Payload.error c message) = MessageType.error
payload_type (Payload.mouse_move d f x y m) = MessageType.mouse_move
payload_type (Payload.mouse_move_relative dx dy m d) = MessageType.mouse_move_relative
payload_type (Payload.mouse_button b a x y m d c) = MessageType.mouse_button
payload_type (Payload.mouse_wheel v h m d f) = MessageType.mouse_wheel
payload_type (Payload.key_event page u a f m) = MessageType.key_event
payload_type (Payload.key_state_sync m a pressed) = MessageType.key_state_sync
payload_type (Payload.text_input c p text) = MessageType.text_input
payload_type (Payload.request_keyframe mode l r) = MessageType.request_keyframe
payload_type (Payload.ltr_ack l f) = MessageType.ltr_ack
payload_type (Payload.cursor_update s x y d v) = MessageType.cursor_update
payload_type (Payload.cursor_shape s w h x y f bytes) = MessageType.cursor_shape
payload_type (Payload.video_frame i n c k t p bytes) = MessageType.video_frame
payload_type (Payload.qos_report q) = MessageType.qos_report
payload_type (Payload.unknown t body) = MessageType.error

-- `for usage in &pressed[..n]`.
unfoldable pub encode_pressed : List ℕ → List ℕ
encode_pressed [] = []
encode_pressed (u ∷ us) = be16 u ++ encode_pressed us

unfoldable pub encode_payload : Payload → List ℕ
encode_payload (Payload.ping token) = be32 token
encode_payload (Payload.pong token host_delay_us) = be32 token ++ be16 host_delay_us ++ 0 ∷ 0 ∷ []
encode_payload (Payload.end_session c) = be16 c
encode_payload (Payload.error c message) =
    let bytes = truncate_utf8 message 256 in be16 c ++ (be16 (length bytes) ++ bytes)
encode_payload (Payload.mouse_move display_id flags x_norm y_norm modifiers) =
    display_id ∷ flags ∷ (be16 x_norm ++ be16 y_norm ++ be16 modifiers)
encode_payload (Payload.mouse_move_relative dx dy modifiers display_id) =
    be16 (as_u16 dx) ++ be16 (as_u16 dy) ++ be16 modifiers ++ display_id ∷ 0 ∷ []
encode_payload (Payload.mouse_button button action x_norm y_norm modifiers display_id click_count) =
    button_code button
    ∷ action_code action
    ∷ (be16 x_norm ++ be16 y_norm ++ be16 modifiers ++ display_id ∷ click_count ∷ [])
encode_payload (Payload.mouse_wheel delta_v delta_h modifiers display_id flags) =
    be16 (as_u16 delta_v) ++ be16 (as_u16 delta_h) ++ be16 modifiers ++ display_id ∷ flags ∷ []
encode_payload (Payload.key_event usage_page usage_id action flags modifiers) =
    be16 usage_page ++ be16 usage_id ++ action_code action ∷ flags ∷ be16 modifiers
encode_payload (Payload.key_state_sync modifiers authoritative pressed) =
    let n = min (length pressed) max_pressed_keys in
    be16 modifiers ++ n ∷ bool_code authoritative ∷ encode_pressed (take n pressed)
encode_payload (Payload.text_input commit preedit text) =
    let bytes = truncate_utf8 text max_text_input in
    be16 (length bytes) ++ (bool_code commit + 2 * bool_code preedit) ∷ 0 ∷ bytes
encode_payload (Payload.request_keyframe mode ltr_index reason) =
    mode_code mode ∷ ltr_index ∷ be16 reason
encode_payload (Payload.ltr_ack ltr_index frame_id) = ltr_index ∷ 0 ∷ be16 frame_id
encode_payload (Payload.cursor_update shape_id x_norm y_norm display_id visible) =
    be32 shape_id ++ be16 x_norm ++ be16 y_norm ++ display_id ∷ bool_code visible ∷ []
encode_payload (Payload.cursor_shape shape_id width height hotspot_x hotspot_y format bytes) =
    be32 shape_id
    ++ be16 width
    ++ be16 height
    ++ be16 hotspot_x
    ++ be16 hotspot_y
    ++ (format ∷ 0 ∷ (be32 (length bytes) ++ bytes))
encode_payload (Payload.video_frame frame_id index count kind temporal_layer pts_us bytes) =
    be32 frame_id
    ++ be16 index
    ++ be16 count
    ++ (kind ∷ temporal_layer ∷ (be64 pts_us ++ (be32 (length bytes) ++ bytes)))
encode_payload (Payload.qos_report q) =
    be16 q.rtt_ms
    ++ be16 q.jitter_ms
    ++ be16 q.loss_permille
    ++ be16 q.frames_decoded
    ++ be16 q.frames_dropped
    ++ be16 q.render_fps_q8
    ++ be16 q.playout_delay_ms
    ++ be16 q.decode_time_us
encode_payload (Payload.unknown msg_type body) = body

-- The code that `new` puts in the header.
abbrev pub header_code : Payload → ℕ
unfolding payload_type
header_code (Payload.unknown msg_type body) = msg_type
header_code other = code (payload_type other)

unfoldable pub new : Payload → ℕ → ℕ → ControlFrame
new payload sequence timestamp_ms = record {
  header = record {
    version = proto_version;
    flags = 0;
    msg_type = header_code payload;
    sequence = sequence;
    timestamp_ms = timestamp_ms;
  };
  payload = payload;
}

unfoldable pub synthetic : ControlFrame → ControlFrame
synthetic f = record f { header = record (f.header) { flags = with_synthetic f.header.flags } }

unfoldable pub encode : ControlFrame → List ℕ
encode f = encode_into f.header ++ encode_payload f.payload
