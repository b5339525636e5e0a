-- ===== src/Proto/WellFormed.antt =====
-- The frames that a sender may build: every field in the range of its Rust type (`u8`, `u16`, …),
-- and the values that docs/PROTOCOL.md section 7 asks of them.
use remote.Prelude.{ℕ, ◌*◌, ◌≤◌, ◌<◌, ◌≡◌, ◌≢◌, ◌⊎◌, List, Option, none, some, false, length, All}
use remote.Prelude.Int.{ℤ, pos, negsuc}
use remote.Proto.MessageType.{MessageType, from_u8}
use remote.Proto.Payload.{
  Payload, KeyAction, QosReport, max_cursor_dim, max_cursor_data, max_video_fragment,
  max_video_fragments, usage_page_keyboard, usage_page_consumer, max_pressed_keys, max_text_input,
}
use remote.Proto.Header.{Header, proto_version}
use remote.Proto.Encode.{ControlFrame, header_code}
use remote.Proto.Utf8.{chars, has_forbidden}

abbrev pub IsU8 : ℕ → Type 0
IsU8 n = n < 256

abbrev pub IsU16 : ℕ → Type 0
IsU16 n = n < 65536

abbrev pub IsU32 : ℕ → Type 0
IsU32 n = n < 4294967296

abbrev pub IsU64 : ℕ → Type 0
IsU64 n = n < 18446744073709551616

abbrev pub IsI16 : ℤ → Type 0
IsI16 (pos n) = n < 32768
IsI16 (negsuc n) = n < 32768

-- A usage that names a key.
abbrev pub IsKey : ℕ → Type 0
IsKey usage = (1 ≤ usage) × (usage ≤ 0xE7)

-- A usage of one of the two pages.
abbrev pub IsUsage : ℕ → ℕ → Type 0
IsUsage page usage =
    ((page ≡ usage_page_keyboard) × IsKey usage)
    ⊎ ((page ≡ usage_page_consumer) × (1 ≤ usage) × (usage ≤ 0x029C))

-- UTF-8 of code points `cs`.
abbrev pub IsText : List ℕ → Type 0
IsText s = (cs : List ℕ) × (chars s ≡ some cs)

abbrev pub IsTyped : List ℕ → Type 0
IsTyped s = (cs : List ℕ) × (chars s ≡ some cs) × (has_forbidden cs ≡ false)

pub record IsQos (q : QosReport) : Type 0 where
  pub rtt_ms : IsU16 q.rtt_ms
  pub jitter_ms : IsU16 q.jitter_ms
  pub loss_permille : IsU16 q.loss_permille
  pub frames_decoded : IsU16 q.frames_decoded
  pub frames_dropped : IsU16 q.frames_dropped
  pub render_fps_q8 : IsU16 q.render_fps_q8
  pub playout_delay_ms : IsU16 q.playout_delay_ms
  pub decode_time_us : IsU16 q.decode_time_us

pub record IsShape (shape_id width height hotspot_x hotspot_y format len : ℕ) : Type 0 where
  pub shape_id_u32 : IsU32 shape_id
  pub width_range : (1 ≤ width) × (width ≤ max_cursor_dim)
  pub height_range : (1 ≤ height) × (height ≤ max_cursor_dim)
  pub hotspot_x_inside : hotspot_x < width
  pub hotspot_y_inside : hotspot_y < height
  pub len_capped : len ≤ max_cursor_data
  pub bgra_exact : format ≡ 0 → len ≡ width * height * 4

pub record IsFragment (frame_id index count kind pts_us len : ℕ) : Type 0 where
  pub frame_id_u32 : IsU32 frame_id
  pub count_range : (1 ≤ count) × (count ≤ max_video_fragments)
  pub index_inside : index < count
  pub kind_known : kind ≤ 2
  pub pts_us_u64 : IsU64 pts_us
  pub len_capped : len ≤ max_video_fragment

-- A type that this build does not know, or whose body it keeps as it is.
abbrev pub IsOpaque : Option MessageType → Type 0
IsOpaque none = Unit {0}
IsOpaque (some MessageType.hello) = Unit {0}
IsOpaque (some MessageType.hello_ack) = Unit {0}
IsOpaque (some MessageType.auth_request) = Unit {0}
IsOpaque (some MessageType.auth_response) = Unit {0}
IsOpaque (some MessageType.session_ready) = Unit {0}
IsOpaque (some MessageType.pause) = Unit {0}
IsOpaque (some MessageType.resume) = Unit {0}
IsOpaque (some MessageType.auth_confirm) = Unit {0}
IsOpaque (some MessageType.display_list) = Unit {0}
IsOpaque (some MessageType.display_select) = Unit {0}
IsOpaque (some MessageType.quality_hint) = Unit {0}
IsOpaque (some MessageType.clipboard_offer) = Unit {0}
IsOpaque (some MessageType.clipboard_request) = Unit {0}
IsOpaque (some MessageType.clipboard_data) = Unit {0}
IsOpaque (some _) = ⊥

abbrev pub IsWire : Payload → Type 0
IsWire (Payload.ping token) = IsU32 token
IsWire (Payload.pong token delay) = IsU32 token × IsU16 delay
IsWire (Payload.end_session c) = IsU16 c
IsWire (Payload.error c message) = IsU16 c × (length message ≤ 256) × IsText message
IsWire (Payload.mouse_move d f x y m) = IsU16 x × IsU16 y × IsU16 m
IsWire (Payload.mouse_move_relative dx dy m d) = IsI16 dx × IsI16 dy × IsU16 m
IsWire (Payload.mouse_button b a x y m d c) =
    (a ≢ KeyAction.repeat) × IsU16 x × IsU16 y × IsU16 m × (1 ≤ c) × (c ≤ 3)
IsWire (Payload.mouse_wheel v h m d f) = IsI16 v × IsI16 h × IsU16 m
IsWire (Payload.key_event page u a f m) = IsUsage page u × IsU16 m
IsWire (Payload.key_state_sync m a pressed) =
    IsU16 m × (length pressed ≤ max_pressed_keys) × All IsKey pressed
IsWire (Payload.text_input c p text) =
    (1 ≤ length text) × (length text ≤ max_text_input) × IsTyped text
IsWire (Payload.request_keyframe mode l r) = IsU16 r
IsWire (Payload.ltr_ack l f) = IsU16 f
IsWire (Payload.cursor_update s x y d v) = IsU32 s × IsU16 x × IsU16 y
IsWire (Payload.cursor_shape s w h x y f bytes) = IsShape s w h x y f (length bytes)
IsWire (Payload.video_frame i n c k t p bytes) = IsFragment i n c k p (length bytes)
IsWire (Payload.qos_report q) = IsQos q
IsWire (Payload.unknown t body) = IsOpaque (from_u8 t)

pub record IsHeader (h : Header) : Type 0 where
  pub version_one : h.version ≡ proto_version
  pub flags_u4 : h.flags < 16
  pub sequence_u16 : IsU16 h.sequence
  pub timestamp_u32 : IsU32 h.timestamp_ms

-- A frame whose header carries the code of its payload, as `ControlFrame::new` builds it.
pub record IsFrame (f : ControlFrame) : Type 0 where
  pub header_valid : IsHeader f.header
  pub type_matches : f.header.msg_type ≡ header_code f.payload
  pub payload_valid : IsWire f.payload
