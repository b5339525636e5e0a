-- ===== src/Proto/MessageType.antt =====
-- control.rs, message types and channels.
use remote.Prelude.{ℕ, ◌≡◌, refl, Option, none, some, ◌==◌, if◌then◌else◌, arith}

pub data MessageType : Type 0 where
  hello hello_ack auth_request auth_response session_ready ping pong pause resume : MessageType
  end_session error auth_confirm : MessageType
  mouse_move mouse_move_relative mouse_button mouse_wheel key_event : MessageType
  key_state_sync text_input : MessageType
  display_list display_select quality_hint request_keyframe ltr_ack : MessageType
  cursor_update cursor_shape video_frame : MessageType
  clipboard_offer clipboard_request clipboard_data qos_report : MessageType

-- `self as u8`.
abbrev pub code : MessageType → ℕ
code hello = 0x01
code hello_ack = 0x02
code auth_request = 0x03
code auth_response = 0x04
code session_ready = 0x05
code ping = 0x06
code pong = 0x07
code pause = 0x08
code resume = 0x09
code end_session = 0x0A
code error = 0x0B
code auth_confirm = 0x0C
code mouse_move = 0x10
code mouse_move_relative = 0x11
code mouse_button = 0x12
code mouse_wheel = 0x13
code key_event = 0x14
code key_state_sync = 0x15
code text_input = 0x16
code display_list = 0x30
code display_select = 0x31
code quality_hint = 0x32
code request_keyframe = 0x33
code ltr_ack = 0x34
code cursor_update = 0x35
code cursor_shape = 0x36
code video_frame = 0x37
code clipboard_offer = 0x40
code clipboard_request = 0x41
code clipboard_data = 0x42
code qos_report = 0x50

-- The arms of the `match` in order.
unfoldable pub from_u8 : ℕ → Option MessageType
from_u8 v =
    if v == 0x01
    then some hello
    else if v == 0x02
    then some hello_ack
    else if v == 0x03
    then some auth_request
    else if v == 0x04
    then some auth_response
    else if v == 0x05
    then some session_ready
    else if v == 0x06
    then some ping
    else if v == 0x07
    then some pong
    else if v == 0x08
    then some pause
    else if v == 0x09
    then some resume
    else if v == 0x0A
    then some end_session
    else if v == 0x0B
    then some error
    else if v == 0x0C
    then some auth_confirm
    else if v == 0x10
    then some mouse_move
    else if v == 0x11
    then some mouse_move_relative
    else if v == 0x12
    then some mouse_button
    else if v == 0x13
    then some mouse_wheel
    else if v == 0x14
    then some key_event
    else if v == 0x15
    then some key_state_sync
    else if v == 0x16
    then some text_input
    else if v == 0x30
    then some display_list
    else if v == 0x31
    then some display_select
    else if v == 0x32
    then some quality_hint
    else if v == 0x33
    then some request_keyframe
    else if v == 0x34
    then some ltr_ack
    else if v == 0x35
    then some cursor_update
    else if v == 0x36
    then some cursor_shape
    else if v == 0x37
    then some video_frame
    else if v == 0x40
    then some clipboard_offer
    else if v == 0x41
    then some clipboard_request
    else if v == 0x42
    then some clipboard_data
    else if v == 0x50
    then some qos_report
    else none

-- The stream a type rides on.
pub data Channel : Type 0 where
  control input_keys input_pointer cursor stats clipboard file video : Channel

unfoldable pub channel : MessageType → Channel
channel mouse_move = input_pointer
channel mouse_move_relative = input_pointer
channel mouse_button = input_keys
channel mouse_wheel = input_keys
channel key_event = input_keys
channel key_state_sync = input_keys
channel text_input = input_keys
channel cursor_update = cursor
channel cursor_shape = cursor
channel video_frame = video
channel clipboard_offer = clipboard
channel clipboard_request = clipboard
channel clipboard_data = clipboard
channel qos_report = stats
channel _ = control

-- A type is recovered from its code.
pub from_u8-code : (t : MessageType) → from_u8 (code t) ≡ some t
unfolding from_u8
from_u8-code hello = refl
from_u8-code _ = refl

-- Nothing but a type's own code is read as that type.
pub code-from_u8 : (v : ℕ) (t : MessageType) → from_u8 v ≡ some t → code t ≡ v
unfolding from_u8
code-from_u8 v t h = ground arith
