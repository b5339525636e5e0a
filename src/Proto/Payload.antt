-- ===== src/Proto/Payload.antt =====
-- control.rs, frame bodies. Strings and byte vectors are lists of bytes; the integer types are
-- natural numbers whose ranges stand in `IsTyped` of Proto/WellFormed.antt.
use remote.Prelude.{ℕ, Bool, List}
use remote.Prelude.Int.{ℤ}

-- Modifiers(pub u16).
abbrev pub Modifiers : Type 0
Modifiers = ℕ

pub data MouseButtonId : Type 0 where
  left right middle x1 x2 : MouseButtonId

pub data KeyAction : Type 0 where
  up down repeat : KeyAction

pub data KeyframeMode : Type 0 where
  idr ltr : KeyframeMode

pub record QosReport : Type 0 where
  pub rtt_ms : ℕ
  pub jitter_ms : ℕ
  pub loss_permille : ℕ
  pub frames_decoded : ℕ
  pub frames_dropped : ℕ
  pub render_fps_q8 : ℕ
  pub playout_delay_ms : ℕ
  pub decode_time_us : ℕ

pub data Payload : Type 0 where
  ping : (token : ℕ) → Payload
  pong : (token host_delay_us : ℕ) → Payload
  end_session : (code : ℕ) → Payload
  error : (code : ℕ) (message : List ℕ) → Payload
  mouse_move : (display_id flags x_norm y_norm : ℕ) (modifiers : Modifiers) → Payload
  mouse_move_relative : (dx dy : ℤ) (modifiers : Modifiers) (display_id : ℕ) → Payload
  mouse_button :
      (button : MouseButtonId) (action : KeyAction) (x_norm y_norm : ℕ) (modifiers : Modifiers)
      (display_id click_count : ℕ)
      → Payload
  mouse_wheel : (delta_v delta_h : ℤ) (modifiers : Modifiers) (display_id flags : ℕ) → Payload
  key_event :
      (usage_page usage_id : ℕ) (action : KeyAction) (flags : ℕ) (modifiers : Modifiers) → Payload
  key_state_sync : (modifiers : Modifiers) (authoritative : Bool) (pressed : List ℕ) → Payload
  text_input : (commit preedit : Bool) (text : List ℕ) → Payload
  request_keyframe : (mode : KeyframeMode) (ltr_index reason : ℕ) → Payload
  ltr_ack : (ltr_index frame_id : ℕ) → Payload
  cursor_update : (shape_id x_norm y_norm display_id : ℕ) (visible : Bool) → Payload
  cursor_shape : (shape_id width height hotspot_x hotspot_y format : ℕ) (bytes : List ℕ) → Payload
  video_frame :
      (frame_id fragment_index fragment_count kind temporal_layer pts_us : ℕ) (bytes : List ℕ)
      → Payload
  qos_report : QosReport → Payload
  unknown : (msg_type : ℕ) (body : List ℕ) → Payload

abbrev pub max_pressed_keys : ℕ
max_pressed_keys = 32

abbrev pub max_text_input : ℕ
max_text_input = 1024

abbrev pub max_cursor_data : ℕ
max_cursor_data = 262144

abbrev pub max_cursor_dim : ℕ
max_cursor_dim = 256

abbrev pub max_video_frame : ℕ
max_video_frame = 2097152

abbrev pub max_video_fragment : ℕ
max_video_fragment = 16384

-- MAX_VIDEO_FRAME / MAX_VIDEO_FRAGMENT.
abbrev pub max_video_fragments : ℕ
max_video_fragments = 128

abbrev pub usage_page_keyboard : ℕ
usage_page_keyboard = 0x0007

abbrev pub usage_page_consumer : ℕ
usage_page_consumer = 0x000C
