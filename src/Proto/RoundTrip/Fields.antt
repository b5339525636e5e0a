-- ===== src/Proto/RoundTrip/Fields.antt =====
-- Numbers and checked fields, written and read back.
use remote.Prelude.{
  ltb, ◌<◌, ◌||◌, some, ◌&&◌, leb, not, ◌==◌, false, true, ◌≢◌, ◌≤◌, String, length, Bool, List, ℕ,
  ◌+◌, ◌*◌, ◌/◌, ◌%◌, ◌≡◌, refl, arith, ok,
}
use remote.Proto.Decode.Session.{from_utf8}
use remote.Prelude.Int.{ℤ, pos, negsuc}
use remote.Proto.Reader.{DecodeError, as_i16}
use remote.Proto.Encode.{action_code, bool_code, mode_code, as_u16, button_code}
use remote.Proto.Payload.{KeyAction, KeyframeMode, MouseButtonId}
use remote.Proto.Decode.Fields.{
  button_from_u8, action_from_u8, mode_from_u8, bit0, bit1, validate_usage,
}
use remote.Proto.WellFormed.{IsU64, IsU16, IsU32, IsI16, IsUsage}
use remote.Proto.Utf8.{chars, truncate_utf8}

pub be16_value : (n : ℕ) → IsU16 n → n / 256 % 256 * 256 + n % 256 ≡ n
be16_value n h = omega arith

pub be32_value :
    (n : ℕ)
    → IsU32 n
    → n / 16777216 % 256 * 16777216 + n / 65536 % 256 * 65536 + n / 256 % 256 * 256 + n % 256 ≡ n
be32_value n h = omega arith

pub as_i16-as_u16 : (z : ℤ) → IsI16 z → as_i16 (as_u16 z) ≡ z
as_i16-as_u16 (pos n) h = ground arith
as_i16-as_u16 (negsuc n) h = ground arith

pub as_u16-IsU16 : (z : ℤ) → IsI16 z → IsU16 (as_u16 z)
as_u16-IsU16 (pos n) h = omega arith
as_u16-IsU16 (negsuc n) h = omega arith

pub button_from_u8-code : (b : MouseButtonId) → button_from_u8 (button_code b) ≡ ok b
unfolding button_from_u8
button_from_u8-code MouseButtonId.left = refl
button_from_u8-code _ = refl

pub validate_usage_ok : (page usage : ℕ) → IsUsage page usage → validate_usage page usage ≡ ok tt
unfolding validate_usage
validate_usage_ok page usage h = ground arith

pub action_from_u8-code :
    (a : KeyAction) (field : String) → action_from_u8 (action_code a) field true ≡ ok a
unfolding action_from_u8
action_from_u8-code KeyAction.up field = refl
action_from_u8-code _ field = refl

pub action_from_u8-press :
    (a : KeyAction) (field : String)
    → a ≢ KeyAction.repeat
    → action_from_u8 (action_code a) field false ≡ ok a
unfolding action_from_u8
action_from_u8-press KeyAction.up field h = refl
action_from_u8-press KeyAction.down field h = refl
action_from_u8-press KeyAction.repeat field h = absurd (h refl)

pub mode_from_u8-code : (m : KeyframeMode) → mode_from_u8 (mode_code m) ≡ ok m
unfolding mode_from_u8
mode_from_u8-code KeyframeMode.idr = refl
mode_from_u8-code KeyframeMode.ltr = refl

pub bit0-code : (b : Bool) → bit0 (bool_code b) ≡ b
bit0-code true = refl
bit0-code false = refl

pub bit0-flags : (b c : Bool) → bit0 (bool_code b + 2 * bool_code c) ≡ b
bit0-flags true true = refl
bit0-flags true false = refl
bit0-flags false true = refl
bit0-flags false false = refl

pub bit1-flags : (b c : Bool) → bit1 (bool_code b + 2 * bool_code c) ≡ c
bit1-flags true true = refl
bit1-flags true false = refl
bit1-flags false true = refl
bit1-flags false false = refl

-- An i16 through its bytes.
pub i16_value : (z : ℤ) → IsI16 z → as_i16 (as_u16 z / 256 % 256 * 256 + as_u16 z % 256) ≡ z
i16_value z h = rw (be16_value (as_u16 z) (as_u16-IsU16 z h)) (as_i16-as_u16 z h)

-- A u64 through its two halves.
pub be64_value :
    (n : ℕ)
    → IsU64 n
    → (n / 4294967296 / 16777216 % 256 * 16777216
            + n / 4294967296 / 65536 % 256 * 65536
            + n / 4294967296 / 256 % 256 * 256
            + n / 4294967296 % 256)
          * 4294967296
        + (n / 16777216 % 256 * 16777216 + n / 65536 % 256 * 65536 + n / 256 % 256 * 256 + n % 256)
      ≡ n
be64_value n h = omega arith

pub truncate_utf8_short : (s : List ℕ) (max : ℕ) → length s ≤ max → truncate_utf8 s max ≡ s
unfolding truncate_utf8
truncate_utf8_short s max h = ground arith

pub in_range : (lo hi c : ℕ) → lo ≤ c → c ≤ hi → not (leb lo c && leb c hi) ≡ false
in_range lo hi c p q = ground arith

pub usage_IsU16 : (page usage : ℕ) → IsUsage page usage → IsU16 page × IsU16 usage
usage_IsU16 page usage h = (omega arith, omega arith)

pub nonempty : (n : ℕ) → 1 ≤ n → (n == 0) ≡ false
nonempty n h = ground arith

pub from_utf8_ok :
    (s cs : List ℕ) (e : DecodeError) (r : List ℕ)
    → chars s ≡ some cs
    → from_utf8 s e r ≡ ok (cs, r)
unfolding from_utf8
from_utf8_ok s cs e r h = rw (h, from_utf8)

pub dimension_ok : (n : ℕ) → (1 ≤ n) × (n ≤ 256) → (n == 0 || ltb 256 n) ≡ false
dimension_ok n h = ground arith

pub count_ok : (n : ℕ) → (1 ≤ n) × (n ≤ 128) → (n == 0 || ltb 128 n) ≡ false
count_ok n h = ground arith

pub inside : (i n : ℕ) → i < n → leb n i ≡ false
inside i n h = ground arith

pub exact_ok :
    (format len expected : ℕ)
    → (format ≡ 0 → len ≡ expected)
    → (format == 0 && not (len == expected)) ≡ false
exact_ok format len expected h = ground arith
