-- ===== src/Proto/Decode/Fields.antt =====
-- control.rs, the range checks of single fields.
use remote.Prelude.{
  ℕ, ◌/◌, ◌%◌, Bool, ◌||◌, not, Result, ok, err, String, ltb, leb, ◌==◌, ◌&&◌, if◌then◌else◌,
}
use remote.Proto.Reader.{DecodeError, invalid_field}
use remote.Proto.Payload.{
  MouseButtonId, KeyAction, KeyframeMode, usage_page_keyboard, usage_page_consumer,
}

-- `MouseButtonId::from_u8`.
unfoldable pub button_from_u8 : ℕ → Result DecodeError MouseButtonId
button_from_u8 v =
    if v == 1
    then ok MouseButtonId.left
    else if v == 2
    then ok MouseButtonId.right
    else if v == 3
    then ok MouseButtonId.middle
    else if v == 4
    then ok MouseButtonId.x1
    else if v == 5
    then ok MouseButtonId.x2
    else err (invalid_field "button" v)

-- `KeyAction::from_u8`.
unfoldable pub action_from_u8 : ℕ → String → Bool → Result DecodeError KeyAction
action_from_u8 v field allow_repeat =
    if v == 0
    then ok KeyAction.up
    else if v == 1
    then ok KeyAction.down
    else if v == 2 && allow_repeat
    then ok KeyAction.repeat
    else err (invalid_field field v)

-- The `match mode_raw` of RequestKeyframe.
unfoldable pub mode_from_u8 : ℕ → Result DecodeError KeyframeMode
mode_from_u8 v =
    if v == 0
    then ok KeyframeMode.idr
    else if v == 1
    then ok KeyframeMode.ltr
    else err (invalid_field "mode" v)

unfoldable pub validate_usage : ℕ → ℕ → Result DecodeError (Unit {0})
validate_usage page usage =
    if page == usage_page_keyboard
    then (if not (leb 0x01 usage && leb usage 0xE7)
        then err (invalid_field "usage_id" usage)
        else ok tt)
    else (if page == usage_page_consumer
        then (if usage == 0 || ltb 0x029C usage
            then err (invalid_field "usage_id" usage)
            else ok tt)
        else err (invalid_field "usage_page" page))

-- `flags & 0x01 != 0` and `flags & 0x02 != 0`.
abbrev pub bit0 : ℕ → Bool
bit0 flags = flags % 2 == 1

abbrev pub bit1 : ℕ → Bool
bit1 flags = flags / 2 % 2 == 1
