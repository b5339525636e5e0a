-- ===== src/Proto/RoundTrip/Media.antt =====
-- Keyframe requests, cursors, video fragments and QoS reports, written and read back.
use remote.Prelude.{◌*◌, ℕ, ◌≡◌, ok, List, Bool, length, arith, ltb_of_le}
use remote.Proto.Reader.{u8-cons, u16-cons, u32-cons, skip_reserved-cons, take_all, ◌>>=◌}
use remote.Proto.Payload.{Payload, KeyframeMode, QosReport}
use remote.Proto.Encode.{encode_payload}
use remote.Proto.WellFormed.{IsWire}
use remote.Proto.Decode.{value}
use remote.Proto.Decode.Media.{
  decode_request_keyframe, decode_ltr_ack, decode_cursor_update, decode_cursor_shape,
  decode_video_frame, decode_qos_report,
}
use remote.Proto.RoundTrip.Fields.{
  be16_value, be32_value, be64_value, dimension_ok, count_ok, inside, exact_ok, mode_from_u8-code,
  bit0-code,
}

pub request_keyframe_back :
    (mode : KeyframeMode) (l r : ℕ)
    → IsWire (Payload.request_keyframe mode l r)
    → value (decode_request_keyframe (encode_payload (Payload.request_keyframe mode l r)))
      ≡ ok (Payload.request_keyframe mode l r)
unfolding decode_request_keyframe encode_payload
request_keyframe_back mode l r h = rw (
  u8-cons,
  mode_from_u8-code mode,
  u8-cons,
  u16-cons,
  be16_value r h,
  decode_request_keyframe,
  ◌>>=◌,
)

pub ltr_ack_back :
    (l f : ℕ)
    → IsWire (Payload.ltr_ack l f)
    → value (decode_ltr_ack (encode_payload (Payload.ltr_ack l f))) ≡ ok (Payload.ltr_ack l f)
unfolding decode_ltr_ack encode_payload
ltr_ack_back l f h =
    rw (u8-cons, skip_reserved-cons, u16-cons, be16_value f h, decode_ltr_ack, ◌>>=◌)

pub cursor_update_back :
    (s x y d : ℕ) (v : Bool)
    → IsWire (Payload.cursor_update s x y d v)
    → value (decode_cursor_update (encode_payload (Payload.cursor_update s x y d v)))
      ≡ ok (Payload.cursor_update s x y d v)
unfolding decode_cursor_update encode_payload
cursor_update_back s x y d v (hs, hx, hy) = rw (
  u32-cons,
  u16-cons,
  u16-cons,
  u8-cons,
  u8-cons,
  be32_value s hs,
  be16_value x hx,
  be16_value y hy,
  bit0-code v,
  decode_cursor_update,
  ◌>>=◌,
)

pub cursor_shape_back :
    (s w h x y f : ℕ) (bytes : List ℕ)
    → IsWire (Payload.cursor_shape s w h x y f bytes)
    → value (decode_cursor_shape (encode_payload (Payload.cursor_shape s w h x y f bytes)))
      ≡ ok (Payload.cursor_shape s w h x y f bytes)
unfolding decode_cursor_shape encode_payload
cursor_shape_back s w h x y f bytes v =
    let width = be16_value w (omega arith) in
    let height = be16_value h (omega arith) in
    let across = be16_value x (omega arith) in
    let down = be16_value y (omega arith) in
    let len = be32_value (length bytes) (omega arith) in
    rw (
      u32-cons,
      u16-cons,
      u16-cons,
      u16-cons,
      u16-cons,
      u8-cons,
      skip_reserved-cons,
      u32-cons,
      width,
      dimension_ok w v.width_range,
      height,
      dimension_ok h v.height_range,
      across,
      width,
      inside x w v.hotspot_x_inside,
      down,
      height,
      inside y h v.hotspot_y_inside,
      len,
      ltb_of_le 262144 (length bytes) v.len_capped,
      len,
      width,
      height,
      exact_ok f (length bytes) (w * h * 4) v.bgra_exact,
      len,
      take_all bytes,
      be32_value s v.shape_id_u32,
      width,
      height,
      across,
      down,
      decode_cursor_shape,
      ◌>>=◌,
    )

pub video_frame_back :
    (i n c k t p : ℕ) (bytes : List ℕ)
    → IsWire (Payload.video_frame i n c k t p bytes)
    → value (decode_video_frame (encode_payload (Payload.video_frame i n c k t p bytes)))
      ≡ ok (Payload.video_frame i n c k t p bytes)
unfolding decode_video_frame encode_payload
video_frame_back i n c k t p bytes v =
    let index = be16_value n (omega arith) in
    let count = be16_value c (omega arith) in
    let len = be32_value (length bytes) (omega arith) in
    rw (
      u32-cons,
      u16-cons,
      u16-cons,
      u8-cons,
      u8-cons,
      u32-cons,
      u32-cons,
      u32-cons,
      ltb_of_le 2 k v.kind_known,
      count,
      count_ok c v.count_range,
      index,
      count,
      inside n c v.index_inside,
      len,
      ltb_of_le 16384 (length bytes) v.len_capped,
      len,
      take_all bytes,
      be32_value i v.frame_id_u32,
      index,
      count,
      be64_value p v.pts_us_u64,
      decode_video_frame,
      ◌>>=◌,
    )

pub qos_report_back :
    (q : QosReport)
    → IsWire (Payload.qos_report q)
    → value (decode_qos_report (encode_payload (Payload.qos_report q))) ≡ ok (Payload.qos_report q)
unfolding decode_qos_report encode_payload
qos_report_back q v = rw (
  u16-cons,
  u16-cons,
  u16-cons,
  u16-cons,
  u16-cons,
  u16-cons,
  u16-cons,
  u16-cons,
  be16_value q.rtt_ms v.rtt_ms,
  be16_value q.jitter_ms v.jitter_ms,
  be16_value q.loss_permille v.loss_permille,
  be16_value q.frames_decoded v.frames_decoded,
  be16_value q.frames_dropped v.frames_dropped,
  be16_value q.render_fps_q8 v.render_fps_q8,
  be16_value q.playout_delay_ms v.playout_delay_ms,
  be16_value q.decode_time_us v.decode_time_us,
  decode_qos_report,
  ◌>>=◌,
)
