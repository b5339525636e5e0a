-- ===== src/Input/Hid.antt =====
-- crates/rda-input/src/hid.rs: HID usages and the table of platform key codes.
use remote.Prelude.{
  ℕ, zero, suc, ◌+◌, ◌/◌, ◌^◌, List, [], ◌∷◌, Option, none, some, Bool, ◌&&◌, leb, ltb, ◌==◌,
  if◌then◌else◌, String, length,
}
use mathlib.Core.Option

abbrev pub page_keyboard : ℕ
page_keyboard = 0x0007

abbrev pub keyboard_usage_min : ℕ
keyboard_usage_min = 0x01

abbrev pub keyboard_usage_max : ℕ
keyboard_usage_max = 0xE7

abbrev pub modifier_usages : List ℕ
modifier_usages = 0xE0 ∷ 0xE1 ∷ 0xE2 ∷ 0xE3 ∷ 0xE4 ∷ 0xE5 ∷ 0xE6 ∷ 0xE7 ∷ []

-- `.iter().position(|&u| u == usage)`.
abbrev position : List ℕ → ℕ → Option ℕ
position [] usage = none
position (u ∷ us) usage =
    let rest = position us usage in if u == usage then some 0 else Option.map suc rest

-- `1u16 << i` with i at most 7.
unfoldable pub modifier_bit : ℕ → Option ℕ
modifier_bit usage = Option.map (λ i. 2 ^ i) (position modifier_usages usage)

abbrev pub is_modifier : ℕ → Bool
is_modifier usage = leb 0xE0 usage && leb usage 0xE7

abbrev pub is_valid_keyboard_usage : ℕ → Bool
is_valid_keyboard_usage usage = leb keyboard_usage_min usage && leb usage keyboard_usage_max

pub record KeyMapping : Type 0 where
  pub usage : ℕ
  pub windows_scancode : ℕ
  pub macos_keycode : ℕ
  pub linux_evdev : ℕ
  pub name : String

abbrev no_code : ℕ
no_code = 0xFFFF

abbrev pub m : ℕ → ℕ → ℕ → ℕ → String → KeyMapping
m usage windows_scancode macos_keycode linux_evdev name = record {
  usage = usage;
  windows_scancode = windows_scancode;
  macos_keycode = macos_keycode;
  linux_evdev = linux_evdev;
  name = name;
}

unfoldable pub key_table : List KeyMapping
key_table =
    m 0x04 0x1E 0x00 30 "KeyA"
    ∷ m 0x05 0x30 0x0B 48 "KeyB"
    ∷ m 0x06 0x2E 0x08 46 "KeyC"
    ∷ m 0x07 0x20 0x02 32 "KeyD"
    ∷ m 0x08 0x12 0x0E 18 "KeyE"
    ∷ m 0x09 0x21 0x03 33 "KeyF"
    ∷ m 0x0A 0x22 0x05 34 "KeyG"
    ∷ m 0x0B 0x23 0x04 35 "KeyH"
    ∷ m 0x0C 0x17 0x22 23 "KeyI"
    ∷ m 0x0D 0x24 0x26 36 "KeyJ"
    ∷ m 0x0E 0x25 0x28 37 "KeyK"
    ∷ m 0x0F 0x26 0x25 38 "KeyL"
    ∷ m 0x10 0x32 0x2E 50 "KeyM"
    ∷ m 0x11 0x31 0x2D 49 "KeyN"
    ∷ m 0x12 0x18 0x1F 24 "KeyO"
    ∷ m 0x13 0x19 0x23 25 "KeyP"
    ∷ m 0x14 0x10 0x0C 16 "KeyQ"
    ∷ m 0x15 0x13 0x0F 19 "KeyR"
    ∷ m 0x16 0x1F 0x01 31 "KeyS"
    ∷ m 0x17 0x14 0x11 20 "KeyT"
    ∷ m 0x18 0x16 0x20 22 "KeyU"
    ∷ m 0x19 0x2F 0x09 47 "KeyV"
    ∷ m 0x1A 0x11 0x0D 17 "KeyW"
    ∷ m 0x1B 0x2D 0x07 45 "KeyX"
    ∷ m 0x1C 0x15 0x10 21 "KeyY"
    ∷ m 0x1D 0x2C 0x06 44 "KeyZ"
    ∷ m 0x1E 0x02 0x12 2 "Digit1"
    ∷ m 0x1F 0x03 0x13 3 "Digit2"
    ∷ m 0x20 0x04 0x14 4 "Digit3"
    ∷ m 0x21 0x05 0x15 5 "Digit4"
    ∷ m 0x22 0x06 0x17 6 "Digit5"
    ∷ m 0x23 0x07 0x16 7 "Digit6"
    ∷ m 0x24 0x08 0x1A 8 "Digit7"
    ∷ m 0x25 0x09 0x1C 9 "Digit8"
    ∷ m 0x26 0x0A 0x19 10 "Digit9"
    ∷ m 0x27 0x0B 0x1D 11 "Digit0"
    ∷ m 0x28 0x1C 0x24 28 "Enter"
    ∷ m 0x29 0x01 0x35 1 "Escape"
    ∷ m 0x2A 0x0E 0x33 14 "Backspace"
    ∷ m 0x2B 0x0F 0x30 15 "Tab"
    ∷ m 0x2C 0x39 0x31 57 "Space"
    ∷ m 0x2D 0x0C 0x1B 12 "Minus"
    ∷ m 0x2E 0x0D 0x18 13 "Equal"
    ∷ m 0x2F 0x1A 0x21 26 "BracketLeft"
    ∷ m 0x30 0x1B 0x1E 27 "BracketRight"
    ∷ m 0x31 0x2B 0x2A 43 "Backslash"
    ∷ m 0x33 0x27 0x29 39 "Semicolon"
    ∷ m 0x34 0x28 0x27 40 "Quote"
    ∷ m 0x35 0x29 0x32 41 "Backquote"
    ∷ m 0x36 0x33 0x2B 51 "Comma"
    ∷ m 0x37 0x34 0x2F 52 "Period"
    ∷ m 0x38 0x35 0x2C 53 "Slash"
    ∷ m 0x39 0x3A 0x39 58 "CapsLock"
    ∷ m 0x3A 0x3B 0x7A 59 "F1"
    ∷ m 0x3B 0x3C 0x78 60 "F2"
    ∷ m 0x3C 0x3D 0x63 61 "F3"
    ∷ m 0x3D 0x3E 0x76 62 "F4"
    ∷ m 0x3E 0x3F 0x60 63 "F5"
    ∷ m 0x3F 0x40 0x61 64 "F6"
    ∷ m 0x40 0x41 0x62 65 "F7"
    ∷ m 0x41 0x42 0x64 66 "F8"
    ∷ m 0x42 0x43 0x65 67 "F9"
    ∷ m 0x43 0x44 0x6D 68 "F10"
    ∷ m 0x44 0x57 0x67 87 "F11"
    ∷ m 0x45 0x58 0x6F 88 "F12"
    ∷ m 0x46 0xE037 0x69 99 "PrintScreen"
    ∷ m 0x47 0x46 no_code 70 "ScrollLock"
    ∷ m 0x48 0x45 no_code 119 "Pause"
    ∷ m 0x49 0xE052 0x72 110 "Insert"
    ∷ m 0x4A 0xE047 0x73 102 "Home"
    ∷ m 0x4B 0xE049 0x74 104 "PageUp"
    ∷ m 0x4C 0xE053 0x75 111 "Delete"
    ∷ m 0x4D 0xE04F 0x77 107 "End"
    ∷ m 0x4E 0xE051 0x79 109 "PageDown"
    ∷ m 0x4F 0xE04D 0x7C 106 "ArrowRight"
    ∷ m 0x50 0xE04B 0x7B 105 "ArrowLeft"
    ∷ m 0x51 0xE050 0x7D 108 "ArrowDown"
    ∷ m 0x52 0xE048 0x7E 103 "ArrowUp"
    ∷ m 0x53 0x45 0x47 69 "NumLock"
    ∷ m 0x54 0xE035 0x4B 98 "NumpadDivide"
    ∷ m 0x55 0x37 0x43 55 "NumpadMultiply"
    ∷ m 0x56 0x4A 0x4E 74 "NumpadSubtract"
    ∷ m 0x57 0x4E 0x45 78 "NumpadAdd"
    ∷ m 0x58 0xE01C 0x4C 96 "NumpadEnter"
    ∷ m 0x59 0x4F 0x53 79 "Numpad1"
    ∷ m 0x5A 0x50 0x54 80 "Numpad2"
    ∷ m 0x5B 0x51 0x55 81 "Numpad3"
    ∷ m 0x5C 0x4B 0x56 75 "Numpad4"
    ∷ m 0x5D 0x4C 0x57 76 "Numpad5"
    ∷ m 0x5E 0x4D 0x58 77 "Numpad6"
    ∷ m 0x5F 0x47 0x59 71 "Numpad7"
    ∷ m 0x60 0x48 0x5B 72 "Numpad8"
    ∷ m 0x61 0x49 0x5C 73 "Numpad9"
    ∷ m 0x62 0x52 0x52 82 "Numpad0"
    ∷ m 0x63 0x53 0x41 83 "NumpadDecimal"
    ∷ m 0x64 0x56 0x0A 86 "IntlBackslash"
    ∷ m 0x65 0xE05D 0x6E 127 "ContextMenu"
    ∷ m 0x67 0x59 0x51 117 "NumpadEqual"
    ∷ m 0x7F 0xE020 no_code 113 "AudioVolumeMute"
    ∷ m 0x80 0xE030 no_code 115 "AudioVolumeUp"
    ∷ m 0x81 0xE02E no_code 114 "AudioVolumeDown"
    ∷ m 0xE0 0x1D 0x3B 29 "ControlLeft"
    ∷ m 0xE1 0x2A 0x38 42 "ShiftLeft"
    ∷ m 0xE2 0x38 0x3A 56 "AltLeft"
    ∷ m 0xE3 0xE05B 0x37 125 "MetaLeft"
    ∷ m 0xE4 0xE01D 0x3E 97 "ControlRight"
    ∷ m 0xE5 0x36 0x3C 54 "ShiftRight"
    ∷ m 0xE6 0xE038 0x3D 100 "AltRight"
    ∷ m 0xE7 0xE05C 0x36 126 "MetaRight"
    ∷ []

abbrev at : List KeyMapping → ℕ → Option KeyMapping
at [] i = none
at (k ∷ ks) zero = some k
at (k ∷ ks) (suc i) = at ks i

-- `binary_search_by_key(&usage, |m| m.usage)` between `lo` and `hi`, on fuel; the row itself.
unfoldable pub search_rows : ℕ → List KeyMapping → ℕ → ℕ → ℕ → Option KeyMapping
search_rows zero rows usage lo hi = none
search_rows (suc fuel) rows usage lo hi =
    let mid = (lo + hi) / 2 in
    let below = search_rows fuel rows usage lo mid in
    let above = search_rows fuel rows usage (mid + 1) hi in
    if leb hi lo then none else elim (at rows mid) [
      | none ↦ none
      | some k ↦ if k.usage == usage then some k else if ltb usage k.usage then below else above
    ]

-- Eight halvings empty a range of fewer than 256 rows.
unfoldable pub lookup : ℕ → Option KeyMapping
unfolding search_rows key_table
lookup usage = search_rows 9 key_table usage 0 (length key_table)
