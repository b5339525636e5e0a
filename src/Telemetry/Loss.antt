-- ===== src/Telemetry/Loss.antt =====
-- lib.rs, `LossEstimator`: the loss of the last two seconds. The totals over the whole life are u64.
use remote.Prelude.{
  inr, inl, Bool-cases, ℕ, List, [], ◌∷◌, ◌++◌, ◌≤◌, ◌+◌, ◌-◌, ◌*◌, ◌/◌, ◌==◌, ltb, min,
  if◌then◌else◌, All, Bool-cases, inl, inr, arith,
}

abbrev pub loss_window_ms : ℕ
loss_window_ms = 2000

-- The time of a sample, what was received and what was lost.
pub record Sample : Type 0 where
  pub at_ms : ℕ
  pub received : ℕ
  pub lost : ℕ

pub record LossEstimator : Type 0 where
  pub events : List Sample
  pub total_received : ℕ
  pub total_lost : ℕ

abbrev pub new : LossEstimator
new = record { events = []; total_received = 0; total_lost = 0 }

-- The loop that drops old samples from the front.
unfoldable pub expire : List Sample → ℕ → List Sample
expire [] now_ms = []
expire (e ∷ rest) now_ms =
    let shorter = expire rest now_ms in
    if ltb loss_window_ms (now_ms - e.at_ms) then shorter else e ∷ rest

unfoldable pub sample : LossEstimator → (received lost now_ms : ℕ) → LossEstimator
sample s received lost now_ms = record {
  events =
      expire (s.events ++ record { at_ms = now_ms; received = received; lost = lost } ∷ []) now_ms;
  total_received = s.total_received + received;
  total_lost = s.total_lost + lost;
}

unfoldable pub sum_received : List Sample → ℕ
sum_received [] = 0
sum_received (e ∷ rest) = e.received + sum_received rest

unfoldable pub sum_lost : List Sample → ℕ
sum_lost [] = 0
sum_lost (e ∷ rest) = e.lost + sum_lost rest

unfoldable pub permille : LossEstimator → ℕ
permille s =
    let lost = sum_lost s.events in
    let total = sum_received s.events + lost in
    if total == 0 then 0 else min ((lost * 1000) / total) 1000

-- Samples in the order of their times, none after `now_ms`.
abbrev pub Ordered : ℕ → List Sample → Type 0
Ordered now_ms [] = Unit
Ordered now_ms (e ∷ rest) =
    All (λ (f : Sample). (e.at_ms ≤ f.at_ms) × (f.at_ms ≤ now_ms)) (e ∷ rest) × Ordered now_ms rest

abbrev pub Recent : ℕ → Sample → Type 0
Recent now_ms e = now_ms - e.at_ms ≤ 2000

later-Recent :
    (t now_ms : ℕ) (es : List Sample)
    → now_ms - t ≤ 2000
    → All (λ (f : Sample). (t ≤ f.at_ms) × (f.at_ms ≤ now_ms)) es
    → All (Recent now_ms) es
later-Recent t now_ms [] h a = tt
later-Recent t now_ms (e ∷ rest) h a = (omega arith, later-Recent t now_ms rest h a.1)

expire-Recent :
    (es : List Sample) (now_ms : ℕ) → Ordered now_ms es → All (Recent now_ms) (expire es now_ms)
unfolding expire
expire-Recent [] now_ms o = tt
expire-Recent (e ∷ rest) now_ms o = elim (Bool-cases (ltb loss_window_ms (now_ms - e.at_ms))) [
  | inl old ↦ rw old (expire-Recent rest now_ms o.1)
  | inr young ↦ rw young (later-Recent e.at_ms now_ms (e ∷ rest) (ground arith) o.0)
]

-- The share of lost packets is a number of thousandths, 1000 at most.
pub permille-le : (s : LossEstimator) → permille s ≤ 1000
unfolding permille
permille-le s = ground arith

widen :
    (t before now_ms : ℕ) (es : List Sample)
    → before ≤ now_ms
    → All (λ (g : Sample). (t ≤ g.at_ms) × (g.at_ms ≤ before)) es
    → All (λ (g : Sample). (t ≤ g.at_ms) × (g.at_ms ≤ now_ms)) es
widen t before now_ms [] h a = tt
widen t before now_ms (e ∷ rest) h a = ((a.0.0, omega arith), widen t before now_ms rest h a.1)

All-append :
    (P : Sample → Type 0) (es : List Sample) (f : Sample) → All P es → P f → All P (es ++ f ∷ [])
All-append P [] f a p = (p, tt)
All-append P (e ∷ rest) f a p = (a.0, All-append P rest f a.1 p)

append-Ordered :
    (es : List Sample) (f : Sample) (before : ℕ)
    → before ≤ f.at_ms
    → Ordered before es
    → Ordered f.at_ms (es ++ f ∷ [])
append-Ordered [] f before h o = omega arith
append-Ordered (e ∷ rest) f before h o = (
  (
    (omega arith, omega arith),
    All-append (λ (g : Sample). (e.at_ms ≤ g.at_ms) × (g.at_ms ≤ f.at_ms)) rest f
        (widen e.at_ms before f.at_ms rest h o.0.1) (omega arith, omega arith),
  ),
  append-Ordered rest f before h o.1,
)

-- After a sample, with the times in order, the window holds samples of the last two seconds only.
pub sample-Recent :
    (s : LossEstimator) (received lost before now_ms : ℕ)
    → before ≤ now_ms
    → Ordered before s.events
    → All (Recent now_ms) (sample s received lost now_ms).events
unfolding sample
sample-Recent s received lost before now_ms h o =
    expire-Recent _ now_ms (append-Ordered s.events _ before h o)
