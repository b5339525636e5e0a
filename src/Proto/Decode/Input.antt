-- ===== src/Proto/Decode/Input.antt =====
-- control.rs, `decode_payload`: the pointer, key and text messages.
use remote.Prelude.{ℕ, zero, suc, List, [], ◌∷◌, true, false, ◌||◌, ◌&&◌, not, leb, ltb, ◌==◌}
use remote.Proto.Reader.{
  Parser, ◌>>=◌, ◌>>◌, pure, lift, reject_if, invalid_field, length_cap, invalid_text, take, u8,
  u16, i16, skip_reserved,
}
use remote.Proto.Payload.{Payload, max_pressed_keys, max_text_input, usage_page_keyboard}
use remote.Proto.Utf8.{has_forbidden}
use remote.Proto.Decode.Fields.{button_from_u8, action_from_u8, validate_usage, bit0, bit1}
use remote.Proto.Decode.Session.{from_utf8}

unfoldable pub decode_mouse_move : Parser Payload
decode_mouse_move = do
  display_id ← u8
  flags ← u8
  x_norm ← u16
  y_norm ← u16
  modifiers ← u16
  pure (Payload.mouse_move display_id flags x_norm y_norm modifiers)

unfoldable pub decode_mouse_move_relative : Parser Payload
decode_mouse_move_relative = do
  dx ← i16
  dy ← i16
  modifiers ← u16
  display_id ← u8
  skip_reserved 1
  pure (Payload.mouse_move_relative dx dy modifiers display_id)

unfoldable pub decode_mouse_button : Parser Payload
decode_mouse_button = do
  b ← u8
  button ← lift (button_from_u8 b)
  a ← u8
  action ← lift (action_from_u8 a "action" false)
  x_norm ← u16
  y_norm ← u16
  modifiers ← u16
  display_id ← u8
  click_count ← u8
  reject_if (not (leb 1 click_count && leb click_count 3)) (invalid_field "click_count" click_count)
  pure (Payload.mouse_button button action x_norm y_norm modifiers display_id click_count)

unfoldable pub decode_mouse_wheel : Parser Payload
decode_mouse_wheel = do
  delta_v ← i16
  delta_h ← i16
  modifiers ← u16
  display_id ← u8
  flags ← u8
  pure (Payload.mouse_wheel delta_v delta_h modifiers display_id flags)

unfoldable pub decode_key_event : Parser Payload
decode_key_event = do
  usage_page ← u16
  usage_id ← u16
  a ← u8
  action ← lift (action_from_u8 a "action" true)
  flags ← u8
  modifiers ← u16
  lift (validate_usage usage_page usage_id)
  pure (Payload.key_event usage_page usage_id action flags modifiers)

-- `for _ in 0..count`.
unfoldable pub read_pressed : ℕ → Parser (List ℕ)
read_pressed zero = pure []
read_pressed (suc count) = do
  usage ← u16
  lift (validate_usage usage_page_keyboard usage)
  rest ← read_pressed count
  pure (usage ∷ rest)

unfoldable pub decode_key_state_sync : Parser Payload
decode_key_state_sync = do
  modifiers ← u16
  count ← u8
  flags ← u8
  reject_if (ltb max_pressed_keys count) (length_cap "count" count max_pressed_keys)
  pressed ← read_pressed count
  pure (Payload.key_state_sync modifiers (bit0 flags) pressed)

unfoldable pub decode_text_input : Parser Payload
decode_text_input = do
  len ← u16
  flags ← u8
  skip_reserved 1
  reject_if (len == 0 || ltb max_text_input len) (length_cap "byte_len" len max_text_input)
  raw ← take len
  cs ← from_utf8 raw (invalid_text "text is not valid UTF-8")
  reject_if (has_forbidden cs) (invalid_text "text contains forbidden control characters")
  pure (Payload.text_input (bit0 flags) (bit1 flags) raw)
