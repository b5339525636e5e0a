-- ===== src/Signal/Backoff.antt =====
-- crates/rda-signal-client/src/backoff.rs: how long to wait before a reconnection. The random draw
-- (`gen_range`) is a parameter.
use native.Mathlib.Nat.{mul-le-mul_left}
use remote.Prelude.{
  ℕ, zero, suc, ◌+◌, ◌*◌, ◌≤◌, ◌≡◌, min, max, ◌==◌, if◌then◌else◌, arith, Bool-cases, inl, inr, ltb,
}

-- `u64::MAX`, where the saturating operations stop.
abbrev u64_max : ℕ
u64_max = 18446744073709551615

pub record Backoff : Type 0 where
  pub base_ms : ℕ
  pub max_ms : ℕ
  pub factor : ℕ
  pub attempt : ℕ

abbrev pub new : ℕ → ℕ → ℕ → Backoff
new base_ms max_ms factor = record {
  base_ms = base_ms;
  max_ms = max_ms;
  factor = max factor 2;
  attempt = 0;
}

unfoldable pub power : ℕ → ℕ → ℕ
power f zero = 1
power f (suc k) = f * power f k

abbrev pub saturating_pow : ℕ → ℕ → ℕ
saturating_pow f k = min (power f k) u64_max

abbrev pub saturating_mul : ℕ → ℕ → ℕ
saturating_mul a b = min (a * b) u64_max

unfoldable pub ceiling : Backoff → ℕ
ceiling b = min (saturating_mul b.base_ms (saturating_pow b.factor (min b.attempt 32))) b.max_ms

-- `saturating_add` on a u32.
unfoldable pub advance : Backoff → Backoff
advance b = record b { attempt = min (b.attempt + 1) 4294967295 }

-- Jitter: a draw between 0 and the ceiling.
unfoldable pub jitter : (ℕ → ℕ) → ℕ → ℕ
jitter draw top = if top == 0 then 0 else draw top

unfoldable pub next_delay : (ℕ → ℕ) → Backoff → Backoff × ℕ
next_delay draw b = (advance b, jitter draw (ceiling b))

abbrev pub reset : Backoff → Backoff
reset b = record b { attempt = 0 }

power_pos : (f k : ℕ) → 1 ≤ f → 1 ≤ power f k
unfolding power
power_pos f zero h = omega arith
power_pos f (suc k) h = omega (arith, mul-le-mul_left f (power_pos f k h))

power_step : (f k : ℕ) → 1 ≤ f → power f k ≤ power f (suc k)
unfolding power
power_step zero k h = absurd (omega arith)
power_step (suc f) k h = omega arith

saturated_step : (f k : ℕ) → 1 ≤ f → saturating_pow f k ≤ saturating_pow f (suc k)
saturated_step f k h = omega (arith, power_step f k h)

capped_step :
    (f a : ℕ)
    → 1 ≤ f
    → saturating_pow f (min a 32) ≤ saturating_pow f (min (min (a + 1) 4294967295) 32)
capped_step f a h = elim (Bool-cases (ltb a 32)) [
  | inl e ↦
      let now : min a 32 ≡ a = ground arith in
      let later : min (min (a + 1) 4294967295) 32 ≡ suc a = ground arith in
      rw (now, later) (saturated_step f a h)
  | inr e ↦
      let now : min a 32 ≡ 32 = ground arith in
      let later : min (min (a + 1) 4294967295) 32 ≡ 32 = ground arith in
      rw (now, later) (omega arith)
]

-- Whatever is drawn between 0 and the ceiling: a delay is no more than the ceiling, which is no more
-- than the maximum, and the next ceiling is no less than this one.
pub next_delay_bounds :
    (draw : ℕ → ℕ) (b : Backoff)
    → ((top : ℕ) → draw top ≤ top)
    → 1 ≤ b.factor
    → ((next_delay draw b).1 ≤ ceiling b)
      × (ceiling b ≤ b.max_ms)
      × (ceiling b ≤ ceiling (next_delay draw b).0)
unfolding next_delay ceiling advance jitter
next_delay_bounds draw b fair h = (
  ground (arith, fair (ceiling b)),
  omega arith,
  omega (arith, mul-le-mul_left b.base_ms (capped_step b.factor b.attempt h)),
)
