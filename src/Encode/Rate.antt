-- ===== src/Encode/Rate.antt =====
-- crates/rda-encode/src/rate.rs: recovery requests, and the picture's size at a rung. The bitrate
-- arithmetic of `update` is in floating point and not modelled.
use remote.Prelude.{
  ℕ, List, [], ◌∷◌, ◌++◌, ◌≡◌, ◌≤◌, ◌+◌, ◌-◌, ◌*◌, ◌/◌, ◌%◌, ◌==◌, ltb, max, Bool, false, Option,
  none, some, if◌then◌else◌, Bool-cases, inl, inr, arith,
}

abbrev pub idr_min_interval_ms : ℕ
idr_min_interval_ms = 1000

abbrev pub idr_budget_ms : ℕ
idr_budget_ms = 200

-- `Recover(RecoveryMode::Ltr { index })`, `Idr`, `Suppressed`.
pub data KeyframeDecision : Type 0 where
  recover : (index : ℕ) → KeyframeDecision
  idr suppressed : KeyframeDecision

-- The controller's part that recovery touches.
pub record RateController : Type 0 where
  pub last_idr_ms : Option ℕ
  pub idr_budget_until_ms : ℕ
  pub acked_ltr : Option ℕ
  pub idr_count : ℕ
  pub ltr_recovery_count : ℕ
  pub suppressed_count : ℕ

abbrev pub new : RateController
new = record {
  last_idr_ms = none;
  idr_budget_until_ms = 0;
  acked_ltr = none;
  idr_count = 0;
  ltr_recovery_count = 0;
  suppressed_count = 0;
}

unfoldable pub on_ltr_acked : RateController → ℕ → RateController
on_ltr_acked r index = record r { acked_ltr = some index }

-- Whether the receiver names the reference that was acknowledged.
abbrev pub named : Option ℕ → Option ℕ → Option ℕ
named none acked = none
named (some index) none = none
named (some index) (some acked) = if index == acked then some index else none

-- Whether an IDR was sent less than a second ago.
abbrev pub too_soon : Option ℕ → ℕ → Bool
too_soon none now_ms = false
too_soon (some last) now_ms = ltb (now_ms - last) idr_min_interval_ms

unfoldable pub recover_by : Option ℕ → RateController → ℕ → RateController × KeyframeDecision
recover_by (some index) r now_ms =
    (record r { ltr_recovery_count = r.ltr_recovery_count + 1 }, recover index)
recover_by none r now_ms =
    if too_soon r.last_idr_ms now_ms
    then (record r { suppressed_count = r.suppressed_count + 1 }, suppressed)
    else (
      record r {
        last_idr_ms = some now_ms;
        idr_budget_until_ms = now_ms + idr_budget_ms;
        idr_count = r.idr_count + 1;
      },
      idr,
    )

unfoldable pub on_recovery_request :
    RateController → Option ℕ → ℕ → RateController × KeyframeDecision
unfolding recover_by
on_recovery_request r receiver_ltr now_ms = recover_by (named receiver_ltr r.acked_ltr) r now_ms

-- `x & !1`.
abbrev pub even : ℕ → ℕ
even x = x - x % 2

-- `EncoderDirective::scaled_dimensions`, of the scale in percent.
unfoldable pub scaled_dimensions : ℕ → ℕ → ℕ → ℕ × ℕ
scaled_dimensions scale_pct native_w native_h = (
  max (even ((native_w * scale_pct / 100) % 4294967296)) 16,
  max (even ((native_h * scale_pct / 100) % 4294967296)) 16,
)

even_bounds : (x : ℕ) → (max (even x) 16 % 2 ≡ 0) × (16 ≤ max (even x) 16)
even_bounds x = ground arith

-- Encoders get even dimensions of 16 at least.
pub scaled_dimensions_bounds :
    (scale_pct native_w native_h : ℕ)
    → (((scaled_dimensions scale_pct native_w native_h).0 % 2 ≡ 0)
        × (16 ≤ (scaled_dimensions scale_pct native_w native_h).0))
      × (((scaled_dimensions scale_pct native_w native_h).1 % 2 ≡ 0)
          × (16 ≤ (scaled_dimensions scale_pct native_w native_h).1))
unfolding scaled_dimensions
scaled_dimensions_bounds scale_pct native_w native_h = (even_bounds _, even_bounds _)

-- What reaches the controller.
pub data Event : Type 0 where
  acked : (index : ℕ) → Event
  requested : (receiver_ltr : Option ℕ) (now_ms : ℕ) → Event

-- The time of an IDR, if that is what was decided.
abbrev pub idr_at : KeyframeDecision → ℕ → List ℕ
idr_at idr now_ms = now_ms ∷ []
idr_at suppressed now_ms = []
idr_at (recover index) now_ms = []

-- The times of the IDRs that a sequence of events brings about.
unfoldable pub idr_times : RateController → List Event → List ℕ
idr_times r [] = []
idr_times r (acked index ∷ rest) = idr_times (on_ltr_acked r index) rest
idr_times r (requested receiver_ltr now_ms ∷ rest) =
    let (after, decision) = on_recovery_request r receiver_ltr now_ms in
    let later = idr_times after rest in idr_at decision now_ms ++ later

-- Each time is a second after the one before, and after `last`.
abbrev pub Spaced : Option ℕ → List ℕ → Type 0
Spaced last [] = Unit
Spaced none (t ∷ ts) = Spaced (some t) ts
Spaced (some last) (t ∷ ts) = (last + 1000 ≤ t) × Spaced (some t) ts

Spaced-cons :
    (last : Option ℕ) (now_ms : ℕ) (ts : List ℕ)
    → too_soon last now_ms ≡ false
    → Spaced (some now_ms) ts
    → Spaced last (now_ms ∷ ts)
Spaced-cons none now_ms ts late h = h
Spaced-cons (some last) now_ms ts late h = (ground arith, h)

decided-Spaced :
    (o : Option ℕ) (r : RateController) (now_ms : ℕ) (ts : List ℕ)
    → Spaced (recover_by o r now_ms).0.last_idr_ms ts
    → Spaced r.last_idr_ms (idr_at (recover_by o r now_ms).1 now_ms ++ ts)
unfolding recover_by
decided-Spaced (some index) r now_ms ts h = h
decided-Spaced none r now_ms ts h = elim (Bool-cases (too_soon r.last_idr_ms now_ms)) [
  | inl soon ↦ rw soon (rw soon at h)
  | inr late ↦ rw late (Spaced-cons r.last_idr_ms now_ms ts late (rw late at h))
]

-- However many recovery requests arrive, IDRs are a second apart.
pub idr_times-Spaced :
    (r : RateController) (events : List Event) → Spaced r.last_idr_ms (idr_times r events)
unfolding idr_times on_recovery_request on_ltr_acked
idr_times-Spaced r [] = tt
idr_times-Spaced r (acked index ∷ rest) = idr_times-Spaced (on_ltr_acked r index) rest
idr_times-Spaced r (requested receiver_ltr now_ms ∷ rest) =
    let step = on_recovery_request r receiver_ltr now_ms in
    decided-Spaced (named receiver_ltr r.acked_ltr) r now_ms (idr_times step.0 rest)
      (idr_times-Spaced step.0 rest)
