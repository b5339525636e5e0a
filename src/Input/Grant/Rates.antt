-- ===== src/Input/Grant/Rates.antt =====
-- What the rate guard admits, over runs of events.
use remote.Prelude.{
  ℕ, zero, suc, ◌+◌, ◌-◌, ◌≤◌, ◌<◌, ◌≡◌, refl, List, [], ◌∷◌, ◌++◌, Bool, true, false, length,
  arith, All, replicate, leb, ◌∙◌, length-append, ap,
}
use remote.Input.Grant.{Window, allow_in, AuditLog, AuditEvent, record_event}

abbrev one_if : Bool → ℕ
one_if true = 1
one_if false = 0

-- Events at the given times, against one window: the window after them, and how many were admitted.
pub run : Window → ℕ → List ℕ → Window × ℕ
run w limit [] = (w, 0)
run w limit (t ∷ ts) =
    let (next, within) = allow_in w limit t in
    let (last, n) = run next limit ts in (last, one_if within + n)

-- A step inside a window counts one event.
step_open :
    (w : Window) (limit t : ℕ)
    → w.count + 1 < 4294967296
    → t < w.start_ms + 1000
    → ((allow_in w limit t).0.start_ms ≡ w.start_ms)
      × ((allow_in w limit t).0.count ≡ w.count + 1)
      × ((allow_in w limit t).1 ≡ leb (w.count + 1) limit)
unfolding allow_in
step_open w limit t h a = (ground arith, ground arith, ground arith)

bounded :
    (w : Window) (limit start : ℕ) (ts : List ℕ)
    → w.start_ms ≡ start
    → w.count + length ts < 4294967296
    → All (λ t. t < start + 1000) ts
    → (run w limit ts).1 ≤ limit - w.count
unfolding run
bounded w limit start [] e h a = omega arith
bounded w limit start (t ∷ ts) e h a =
    let (same, counted, within) = step_open w limit t (omega arith) (omega arith) in
    let rest = bounded (allow_in w limit t).0 limit start ts (omega arith) (omega arith) a.1 in
    ground arith

-- While a window lasts it admits no more events than the limit leaves it. (The counter is a u32,
-- so fewer than 2 ^ 32 events are meant.)
pub run_bounded :
    (w : Window) (limit : ℕ) (ts : List ℕ)
    → w.count + length ts < 4294967296
    → All (λ t. t < w.start_ms + 1000) ts
    → (run w limit ts).1 ≤ limit - w.count
run_bounded w limit ts h a = bounded w limit w.start_ms ts refl h a

run-append :
    (w : Window) (limit : ℕ) (ts us : List ℕ)
    → (run w limit (ts ++ us)).1 ≡ (run w limit ts).1 + (run (run w limit ts).0 limit us).1
unfolding run
run-append w limit [] us = omega arith
run-append w limit (t ∷ ts) us = omega (arith, run-append (allow_in w limit t).0 limit ts us)

-- Up to the limit, events inside the window are all admitted.
run_same :
    (n : ℕ) (w : Window) (limit t : ℕ)
    → limit < 4294967295
    → w.count + n ≤ limit
    → t < w.start_ms + 1000
    → ((run w limit (replicate n t)).1 ≡ n)
      × ((run w limit (replicate n t)).0.start_ms ≡ w.start_ms)
unfolding run
run_same zero w limit t b h a = (refl, refl)
run_same (suc n) w limit t b h a =
    let (same, counted, within) = step_open w limit t (omega arith) (omega arith) in
    let (all, still) = run_same n (allow_in w limit t).0 limit t b (omega arith) (omega arith) in
    (ground arith, still ∙ same)

-- A step on a window that is a second old starts a new one.
step_rolled :
    (w : Window) (limit t : ℕ)
    → w.start_ms + 1000 ≤ t
    → 0 < limit
    → ((allow_in w limit t).0.start_ms ≡ t)
      × ((allow_in w limit t).0.count ≡ 1)
      × ((allow_in w limit t).1 ≡ true)
unfolding allow_in
step_rolled w limit t h p = (ground arith, ground arith, ground arith)

-- The windows are fixed and not sliding: a fresh window at time `s` admits a full limit of events
-- at `s + 999` and another full limit one millisecond later.
pub run_burst :
    (w : Window) (n : ℕ)
    → w.count ≡ 0
    → n < 4294967294
    → (run w
        (suc n)
        (replicate (suc n) (w.start_ms + 999) ++ replicate (suc n) (w.start_ms + 1000))).1
      ≡ suc n + suc n
unfolding run
run_burst w n e h =
    let s = w.start_ms in
    let (first, start) =
      run_same (suc n) w (suc n) (s + 999) (omega arith) (omega arith) (omega arith) in
    let mid = (run w (suc n) (replicate (suc n) (s + 999))).0 in
    let (at, one, within) = step_rolled mid (suc n) (s + 1000) (omega arith) (omega arith) in
    let (second, last) =
      run_same n (allow_in mid (suc n) (s + 1000)).0 (suc n) (s + 1000) (omega arith) (omega arith)
        (omega arith) in
    omega (
      arith,
      run-append w (suc n) (replicate (suc n) (s + 999)) (replicate (suc n) (s + 1000)),
      first,
      second,
      ap one_if within,
    )

capped :
    (es : List (ℕ × AuditEvent)) (capacity now : ℕ) (event : AuditEvent)
    → 0 < capacity
    → length es ≤ capacity
    → length (record_event (record { entries = es; capacity = capacity }) now event).entries
      ≤ capacity
unfolding record_event
capped [] capacity now event p h = ground arith
capped (e ∷ es) capacity now event p h =
    ground (arith, length-append es ((now, event) ∷ []), length-append (e ∷ es) ((now, event) ∷ []))

-- A log with a capacity never holds more entries than that: recording an event keeps it so.
pub record_event_capped :
    (l : AuditLog) (now : ℕ) (event : AuditEvent)
    → 0 < l.capacity
    → length l.entries ≤ l.capacity
    → length (record_event l now event).entries ≤ l.capacity
unfolding record_event
record_event_capped l now event p h = capped l.entries l.capacity now event p h
