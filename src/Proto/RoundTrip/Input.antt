-- ===== src/Proto/RoundTrip/Input.antt =====
-- The input messages, written and read back.
use remote.Prelude.{
  inl, ℕ, ◌≡◌, refl, ok, List, [], ◌∷◌, Bool, length, arith, All, min, take-eq_self, ◌+◌, ◌*◌,
  ltb_of_le,
}
use remote.Prelude.Int.{ℤ}
use remote.Proto.Reader.{u8-cons, u16-cons, skip_reserved-cons, take_all, i16, ◌>>=◌, as_i16}
use remote.Proto.Payload.{Payload, KeyAction, MouseButtonId, max_pressed_keys}
use remote.Proto.Encode.{encode_payload, encode_pressed}
use remote.Proto.WellFormed.{IsWire, IsKey}
use remote.Proto.Decode.{value}
use remote.Proto.Decode.Input.{
  decode_mouse_move, decode_mouse_move_relative, decode_mouse_button, decode_mouse_wheel,
  decode_key_event, decode_key_state_sync, decode_text_input, read_pressed,
}
use remote.Proto.RoundTrip.Fields.{
  in_range, usage_IsU16, nonempty, from_utf8_ok, be16_value, i16_value, button_from_u8-code,
  action_from_u8-code, action_from_u8-press, bit0-code, bit0-flags, bit1-flags, validate_usage_ok,
  truncate_utf8_short,
}

pub mouse_move_back :
    (d f x y m : ℕ)
    → IsWire (Payload.mouse_move d f x y m)
    → value (decode_mouse_move (encode_payload (Payload.mouse_move d f x y m)))
      ≡ ok (Payload.mouse_move d f x y m)
unfolding decode_mouse_move encode_payload
mouse_move_back d f x y m (hx, hy, hm) = rw (
  u8-cons,
  u8-cons,
  u16-cons,
  u16-cons,
  u16-cons,
  be16_value x hx,
  be16_value y hy,
  be16_value m hm,
  decode_mouse_move,
  ◌>>=◌,
)

i16-cons : (a b : ℕ) (r : List ℕ) → i16 (a ∷ b ∷ r) ≡ ok (as_i16 (a * 256 + b), r)
unfolding i16
i16-cons a b r = rw (u16-cons, i16, ◌>>=◌)

pub mouse_move_relative_back :
    (dx dy : ℤ) (m d : ℕ)
    → IsWire (Payload.mouse_move_relative dx dy m d)
    → value (decode_mouse_move_relative (encode_payload (Payload.mouse_move_relative dx dy m d)))
      ≡ ok (Payload.mouse_move_relative dx dy m d)
unfolding decode_mouse_move_relative encode_payload
mouse_move_relative_back dx dy m d (hx, hy, hm) = rw (
  i16-cons,
  i16-cons,
  u16-cons,
  u8-cons,
  skip_reserved-cons,
  i16_value dx hx,
  i16_value dy hy,
  be16_value m hm,
  decode_mouse_move_relative,
  ◌>>=◌,
)

pub mouse_button_back :
    (b : MouseButtonId) (a : KeyAction) (x y m d c : ℕ)
    → IsWire (Payload.mouse_button b a x y m d c)
    → value (decode_mouse_button (encode_payload (Payload.mouse_button b a x y m d c)))
      ≡ ok (Payload.mouse_button b a x y m d c)
unfolding decode_mouse_button encode_payload
mouse_button_back b a x y m d c (ha, hx, hy, hm, lo, hi) = rw (
  u8-cons,
  button_from_u8-code,
  u8-cons,
  action_from_u8-press a _ ha,
  u16-cons,
  u16-cons,
  u16-cons,
  u8-cons,
  u8-cons,
  in_range 1 3 c lo hi,
  be16_value x hx,
  be16_value y hy,
  be16_value m hm,
  decode_mouse_button,
  ◌>>=◌,
)

pub mouse_wheel_back :
    (v h : ℤ) (m d f : ℕ)
    → IsWire (Payload.mouse_wheel v h m d f)
    → value (decode_mouse_wheel (encode_payload (Payload.mouse_wheel v h m d f)))
      ≡ ok (Payload.mouse_wheel v h m d f)
unfolding decode_mouse_wheel encode_payload
mouse_wheel_back v h m d f (hv, hh, hm) = rw (
  i16-cons,
  i16-cons,
  u16-cons,
  u8-cons,
  u8-cons,
  i16_value v hv,
  i16_value h hh,
  be16_value m hm,
  decode_mouse_wheel,
  ◌>>=◌,
)

pub key_event_back :
    (page u : ℕ) (a : KeyAction) (f m : ℕ)
    → IsWire (Payload.key_event page u a f m)
    → value (decode_key_event (encode_payload (Payload.key_event page u a f m)))
      ≡ ok (Payload.key_event page u a f m)
unfolding decode_key_event encode_payload
key_event_back page u a f m (hu, hm) =
    let (hp, hv) = usage_IsU16 page u hu in
    rw (
      u16-cons,
      u16-cons,
      u8-cons,
      action_from_u8-code a,
      u8-cons,
      u16-cons,
      be16_value page hp,
      be16_value u hv,
      validate_usage_ok page u hu,
      be16_value page hp,
      be16_value u hv,
      be16_value m hm,
      decode_key_event,
      ◌>>=◌,
    )

-- The loop over `count` reads back the list that was written.
read_pressed-encode :
    (us : List ℕ) → All IsKey us → read_pressed (length us) (encode_pressed us) ≡ ok (us, [])
unfolding read_pressed encode_pressed
read_pressed-encode [] h = refl
read_pressed-encode (u ∷ us) (hu, h) = rw (
  u16-cons,
  be16_value u (omega arith),
  validate_usage_ok 7 u (inl (refl, hu)),
  read_pressed-encode us h,
  be16_value u (omega arith),
  ◌>>=◌,
)

pub key_state_sync_back :
    (m : ℕ) (a : Bool) (us : List ℕ)
    → IsWire (Payload.key_state_sync m a us)
    → value (decode_key_state_sync (encode_payload (Payload.key_state_sync m a us)))
      ≡ ok (Payload.key_state_sync m a us)
unfolding decode_key_state_sync encode_payload
key_state_sync_back m a us (hm, hl, hk) =
    let whole : min (length us) max_pressed_keys ≡ length us = omega arith in
    rw (
      whole,
      u16-cons,
      u8-cons,
      u8-cons,
      ltb_of_le 32 (length us) hl,
      take-eq_self (length us) us (omega arith),
      read_pressed-encode us hk,
      be16_value m hm,
      bit0-code a,
      decode_key_state_sync,
      ◌>>=◌,
    )

pub text_input_back :
    (c p : Bool) (text : List ℕ)
    → IsWire (Payload.text_input c p text)
    → value (decode_text_input (encode_payload (Payload.text_input c p text)))
      ≡ ok (Payload.text_input c p text)
unfolding decode_text_input encode_payload
text_input_back c p text (h1, h2, (cs, valid, clean)) =
    let len = be16_value (length text) (omega arith) in
    rw (
      truncate_utf8_short text 1024 h2,
      u16-cons,
      u8-cons,
      skip_reserved-cons,
      len,
      nonempty (length text) h1,
      ltb_of_le 1024 (length text) h2,
      len,
      take_all text,
      from_utf8_ok text cs _ _ valid,
      clean,
      bit0-flags c p,
      bit1-flags c p,
      decode_text_input,
      ◌>>=◌,
    )
