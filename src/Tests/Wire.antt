-- ===== src/Tests/Wire.antt =====
-- Frames of the wire protocol.
use remote.Prelude.{◌≡◌, refl, ok, some, arith, false}
use remote.Proto.Payload.{Payload, MouseButtonId, KeyAction}
use remote.Proto.Encode.{ControlFrame, encode, encode_payload, header_code, payload_type}
use remote.Proto.Decode.{decode, decode_payload}
use remote.Proto.WellFormed.{IsFrame, IsWire}
use remote.Proto.RoundTrip.Frame.{decode-encode, decode_payload-encode_payload}
use remote.Proto.Serial
use remote.Proto.Serial.Window

abbrev click : Payload
click = Payload.mouse_button MouseButtonId.right KeyAction.down 300 65535 2 1 2

abbrev click_frame : ControlFrame
click_frame = record {
  header = record { version = 1; flags = 0; msg_type = 0x12; sequence = 513; timestamp_ms = 70000 };
  payload = click;
}

click-IsWire : IsWire click
click-IsWire = (λ e. cc, omega arith, omega arith, omega arith, omega arith, omega arith)

click_frame-IsFrame : IsFrame click_frame
unfolding payload_type
click_frame-IsFrame = record {
  header_valid = record {
    version_one = refl;
    flags_u4 = omega arith;
    sequence_u16 = omega arith;
    timestamp_u32 = omega arith;
  };
  type_matches = refl;
  payload_valid = click-IsWire;
}

decode-encode_example : decode (encode click_frame) ≡ ok click_frame
decode-encode_example = decode-encode click_frame click_frame-IsFrame

decode_payload-encode_payload_example :
    decode_payload (header_code click) (encode_payload click) ≡ ok click
decode_payload-encode_payload_example = decode_payload-encode_payload click click-IsWire

accept_stream_example : (Window.run 9 (record { last = some 65530 }) (Serial.next 65530)).1 ≡ 9
accept_stream_example = Window.accept_stream 9 65530 (omega arith)

is_newer_than_asym_example : Serial.is_newer_than 65530 3 ≡ false
unfolding Serial.is_newer_than
is_newer_than_asym_example = Window.is_newer_than_asym 3 65530 (omega arith) (omega arith) refl
