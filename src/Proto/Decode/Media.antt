-- ===== src/Proto/Decode/Media.antt =====
-- control.rs, `decode_payload`: keyframe requests, cursors, video fragments, QoS.
use remote.Prelude.{◌+◌, ◌*◌, ◌||◌, ◌&&◌, not, leb, ltb, ◌==◌}
use remote.Proto.Reader.{
  Parser, ◌>>=◌, ◌>>◌, pure, lift, reject_if, invalid_field, length_cap, take, u8, u16, u32,
  skip_reserved,
}
use remote.Proto.Payload.{
  Payload, max_cursor_dim, max_cursor_data, max_video_fragment, max_video_fragments,
}
use remote.Proto.Decode.Fields.{mode_from_u8, bit0}

unfoldable pub decode_request_keyframe : Parser Payload
decode_request_keyframe = do
  m ← u8
  mode ← lift (mode_from_u8 m)
  ltr_index ← u8
  reason ← u16
  pure (Payload.request_keyframe mode ltr_index reason)

unfoldable pub decode_ltr_ack : Parser Payload
decode_ltr_ack = do
  ltr_index ← u8
  skip_reserved 1
  frame_id ← u16
  pure (Payload.ltr_ack ltr_index frame_id)

unfoldable pub decode_cursor_update : Parser Payload
decode_cursor_update = do
  shape_id ← u32
  x_norm ← u16
  y_norm ← u16
  display_id ← u8
  flags ← u8
  pure (Payload.cursor_update shape_id x_norm y_norm display_id (bit0 flags))

unfoldable pub decode_cursor_shape : Parser Payload
decode_cursor_shape = do
  shape_id ← u32
  width ← u16
  height ← u16
  hotspot_x ← u16
  hotspot_y ← u16
  format ← u8
  skip_reserved 1
  data_len ← u32
  reject_if (width == 0 || ltb max_cursor_dim width) (invalid_field "width" width)
  reject_if (height == 0 || ltb max_cursor_dim height) (invalid_field "height" height)
  reject_if (leb width hotspot_x) (invalid_field "hotspot_x" hotspot_x)
  reject_if (leb height hotspot_y) (invalid_field "hotspot_y" hotspot_y)
  reject_if (ltb max_cursor_data data_len) (length_cap "data_len" data_len max_cursor_data)
  let expected = width * height * 4
  reject_if (format == 0 && not (data_len == expected)) (length_cap "data_len" data_len expected)
  bytes ← take data_len
  pure (Payload.cursor_shape shape_id width height hotspot_x hotspot_y format bytes)

-- `u64::from(hi) << 32 | u64::from(lo)`: the halves share no bit.
unfoldable pub decode_video_frame : Parser Payload
decode_video_frame = do
  frame_id ← u32
  fragment_index ← u16
  fragment_count ← u16
  kind ← u8
  temporal_layer ← u8
  hi ← u32
  lo ← u32
  len ← u32
  reject_if (ltb 2 kind) (invalid_field "kind" kind)
  reject_if (fragment_count == 0 || ltb max_video_fragments fragment_count)
      (invalid_field "fragment_count" fragment_count)
  reject_if (leb fragment_count fragment_index) (invalid_field "fragment_index" fragment_index)
  reject_if (ltb max_video_fragment len) (length_cap "data_len" len max_video_fragment)
  bytes ← take len
  pure (
      Payload.video_frame frame_id fragment_index fragment_count kind temporal_layer
        (hi * 4294967296 + lo) bytes)

unfoldable pub decode_qos_report : Parser Payload
decode_qos_report = do
  rtt_ms ← u16
  jitter_ms ← u16
  loss_permille ← u16
  frames_decoded ← u16
  frames_dropped ← u16
  render_fps_q8 ← u16
  playout_delay_ms ← u16
  decode_time_us ← u16
  pure (
      Payload.qos_report (record {
        rtt_ms = rtt_ms;
        jitter_ms = jitter_ms;
        loss_permille = loss_permille;
        frames_decoded = frames_decoded;
        frames_dropped = frames_dropped;
        render_fps_q8 = render_fps_q8;
        playout_delay_ms = playout_delay_ms;
        decode_time_us = decode_time_us;
      }))
