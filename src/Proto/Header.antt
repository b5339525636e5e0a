-- ===== src/Proto/Header.antt =====
-- control.rs, the fixed 8-byte frame header.
use remote.Prelude.{
  ℕ, ◌+◌, ◌*◌, ◌/◌, ◌%◌, List, [], ◌∷◌, ◌++◌, Option, Result, ok, err, ltb, length, get_or, ◌==◌,
  if◌then◌else◌,
}
use remote.Proto.Reader.{DecodeError, truncated, bad_version}
use remote.Proto.MessageType.{MessageType, from_u8}

abbrev pub proto_version : ℕ
proto_version = 1

abbrev pub header_len : ℕ
header_len = 8

-- Flags(pub u8).
abbrev pub Flags : Type 0
Flags = ℕ

-- `self.0 | SYNTHETIC`, with SYNTHETIC = 2.
unfoldable pub with_synthetic : Flags → Flags
with_synthetic f = if f / 2 % 2 == 0 then f + 2 else f

pub record Header : Type 0 where
  pub version : ℕ
  pub flags : Flags
  pub msg_type : ℕ
  pub sequence : ℕ
  pub timestamp_ms : ℕ

-- `to_be_bytes` of a u16, u32 and u64.
abbrev pub be16 : ℕ → List ℕ
be16 n = n / 256 % 256 ∷ n % 256 ∷ []

abbrev pub be32 : ℕ → List ℕ
be32 n = n / 16777216 % 256 ∷ n / 65536 % 256 ∷ n / 256 % 256 ∷ n % 256 ∷ []

abbrev pub be64 : ℕ → List ℕ
be64 n = be32 (n / 4294967296) ++ be32 n

-- `(version << 4) | (flags & 0x0F)` on u8: the two halves share no bit.
unfoldable pub encode_into : Header → List ℕ
encode_into h =
    (h.version * 16 % 256 + h.flags % 16) ∷ h.msg_type ∷ (be16 h.sequence ++ be32 h.timestamp_ms)

unfoldable pub decode : List ℕ → Result DecodeError Header
decode buf =
    if ltb (length buf) header_len
    then err (truncated header_len (length buf))
    else (let version = get_or buf 0 0 / 16 in
        if version == proto_version
        then ok (record {
          version = version;
          flags = get_or buf 0 0 % 16;
          msg_type = get_or buf 1 0;
          sequence = get_or buf 2 0 * 256 + get_or buf 3 0;
          timestamp_ms =
              get_or buf 4 0 * 16777216
              + get_or buf 5 0 * 65536
              + get_or buf 6 0 * 256
              + get_or buf 7 0;
        })
        else err (bad_version version))

unfoldable pub typed : Header → Option MessageType
typed h = from_u8 h.msg_type
