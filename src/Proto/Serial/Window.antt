-- ===== src/Proto/Serial/Window.antt =====
-- What a tracker accepts around the circle.
use remote.Prelude.{
  ℕ, zero, suc, ◌+◌, ◌%◌, ◌≤◌, ◌<◌, ◌≡◌, refl, some, true, false, arith, if◌then◌else◌,
}
use remote.Proto.Serial.{next, wrapping_sub, is_newer_than, SerialTracker, accept}

-- The order around the circle has no two-way pair.
pub is_newer_than_asym :
    (a b : ℕ) → a < 65536 → b < 65536 → is_newer_than a b ≡ true → is_newer_than b a ≡ false
unfolding is_newer_than
is_newer_than_asym a b p q h = ground arith

next_newer : (a : ℕ) → a < 65536 → is_newer_than (next a) a ≡ true
unfolding is_newer_than
next_newer a p = ground arith

-- `n` frames numbered onwards from `s`: the tracker after them, and how many it accepted.
pub run : ℕ → SerialTracker → ℕ → SerialTracker × ℕ
run zero t s = (t, 0)
run (suc n) t s =
    let (after, taken) = accept t s in
    let (last, count) = run n after (next s) in (last, if taken then count + 1 else count)

-- A stream in order is accepted whole, however often its numbers wrap.
pub accept_stream : (n s : ℕ) → s < 65536 → (run n (record { last = some s }) (next s)).1 ≡ n
unfolding run accept
accept_stream zero s h = refl
accept_stream (suc n) s h =
    rw (next_newer s h, accept) (omega (arith, accept_stream n (next s) (omega arith)))

-- A duplicate, and each of the 32768 numbers behind the last one accepted, is refused and leaves
-- the tracker as it is.
pub accept_behind :
    (l d : ℕ)
    → l < 65536
    → d ≤ 32768
    → accept (record { last = some l }) (wrapping_sub l d) ≡ (record { last = some l }, false)
unfolding accept is_newer_than
accept_behind l d p q = ground arith

-- Each of the 32767 numbers ahead of it is accepted and becomes the last one.
pub accept_ahead :
    (l d : ℕ)
    → l < 65536
    → 1 ≤ d
    → d < 32768
    → accept (record { last = some l }) ((l + d) % 65536)
      ≡ (record { last = some ((l + d) % 65536) }, true)
unfolding accept is_newer_than
accept_ahead l d p q r = ground arith
