-- ===== src/Proto/Serial.antt =====
-- crates/rda-proto/src/seq.rs: serial numbers of 16 bits, compared around the circle.
pub mod Window
use remote.Prelude.{
  ℕ, ◌+◌, ◌-◌, ◌%◌, Option, none, some, Bool, true, false, not, ◌&&◌, ltb, ◌==◌, if◌then◌else◌,
}

-- `1 << 15`.
abbrev half : ℕ
half = 32768

-- `wrapping_add(1)`.
abbrev pub next : ℕ → ℕ
next a = (a + 1) % 65536

-- `wrapping_sub`, on numbers below 2 ^ 16.
abbrev pub wrapping_sub : ℕ → ℕ → ℕ
wrapping_sub a b = (a + 65536 - b) % 65536

unfoldable pub is_newer_than : ℕ → ℕ → Bool
is_newer_than a b = let diff = wrapping_sub a b in not (diff == 0) && ltb diff half

unfoldable pub is_stale_against : ℕ → ℕ → Bool
is_stale_against a last_applied = not (is_newer_than a last_applied)

pub record SerialTracker : Type 0 where
  pub last : Option ℕ

abbrev pub new : SerialTracker
new = record { last = none }

-- What the tracker becomes, and whether the frame is to be applied.
unfoldable pub accept : SerialTracker → ℕ → SerialTracker × Bool
accept t seq = elim t.last [
  | none ↦ (record { last = some seq }, true)
  | some last ↦ if is_newer_than seq last then (record { last = some seq }, true) else (t, false)
]
