-- ===== src/Proto/Malformed.antt =====
-- control.rs, `MalformedCounter`: how many malformed frames a session survives.
use remote.Prelude.{
  ℕ, ◌+◌, ◌-◌, ◌%◌, ◌≤◌, ◌<◌, ◌≡◌, refl, List, [], ◌∷◌, Bool, true, false, ltb, leb, if◌then◌else◌,
  arith, All, length,
}

pub record MalformedCounter : Type 0 where
  pub window_ms : ℕ
  pub limit : ℕ
  pub window_start_ms : ℕ
  pub count : ℕ

abbrev pub new : ℕ → ℕ → MalformedCounter
new limit window_ms = record {
  window_ms = window_ms;
  limit = limit;
  window_start_ms = 0;
  count = 0;
}

-- `wrapping_sub` of two u32.
abbrev elapsed : ℕ → ℕ → ℕ
elapsed now_ms start = (now_ms + 4294967296 - start) % 4294967296

-- The counter after the frame, and whether the session ends. The count is a u32.
unfoldable pub record_frame : MalformedCounter → ℕ → MalformedCounter × Bool
record_frame c now_ms =
    let rolled =
      if ltb c.window_ms (elapsed now_ms c.window_start_ms)
      then record c { window_start_ms = now_ms; count = 0 }
      else c in
    let counted = record rolled { count = (rolled.count + 1) % 4294967296 } in
    (counted, ltb c.limit counted.count)

-- Is the session still alive after frames at these times?
pub survives : MalformedCounter → List ℕ → Bool
survives c [] = true
survives c (t ∷ ts) =
    let (next, ended) = record_frame c t in
    let rest = survives next ts in if ended then false else rest

in_window :
    (c : MalformedCounter) (t : ℕ)
    → c.window_start_ms ≤ t
    → t ≤ c.window_start_ms + c.window_ms
    → t < 4294967296
    → c.count + 1 < 4294967296
    → ((record_frame c t).0.window_ms ≡ c.window_ms)
      × ((record_frame c t).0.limit ≡ c.limit)
      × ((record_frame c t).0.window_start_ms ≡ c.window_start_ms)
      × ((record_frame c t).0.count ≡ c.count + 1)
      × ((record_frame c t).1 ≡ ltb c.limit (c.count + 1))
unfolding record_frame
in_window c t p q r s = (ground arith, ground arith, ground arith, ground arith, ground arith)

counted :
    (c : MalformedCounter) (start width limit : ℕ) (ts : List ℕ)
    → c.window_start_ms ≡ start
    → c.window_ms ≡ width
    → c.limit ≡ limit
    → All (λ t. (start ≤ t) × (t ≤ start + width) × (t < 4294967296)) ts
    → c.count + length ts < 4294967296
    → c.count ≤ limit
    → survives c ts ≡ leb (c.count + length ts) limit
unfolding survives
counted c start width limit [] e f g a b k = ground arith
counted c start width limit (t ∷ ts) e f g a b k =
    let (w, l, s, n, ended) =
      in_window c t (omega arith) (omega arith) (omega arith) (omega arith) in
    let rest = counted (record_frame c t).0 start width limit ts in ground arith

-- Within one window the session lives exactly as long as the malformed frames in it are no more
-- than the limit. (Times and counts are u32.)
pub survives_limit :
    (c : MalformedCounter) (ts : List ℕ)
    → All
        (λ t. (c.window_start_ms ≤ t) × (t ≤ c.window_start_ms + c.window_ms) × (t < 4294967296))
        ts
    → c.count + length ts < 4294967296
    → c.count ≤ c.limit
    → survives c ts ≡ leb (c.count + length ts) c.limit
survives_limit c ts a b k = counted c c.window_start_ms c.window_ms c.limit ts refl refl refl a b k
