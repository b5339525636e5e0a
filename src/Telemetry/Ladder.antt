-- ===== src/Telemetry/Ladder.antt =====
-- lib.rs: the degradation ladder. Loss is in thousandths, as `LossEstimator::fraction` gives it:
-- its quotients and the literals of the thresholds round alike, so that the comparisons are exact.
pub mod Dwell
use remote.Prelude.{
  ℕ, List, [], ◌∷◌, ◌≡◌, ◌≢◌, ◌≤◌, ◌-◌, ◌==◌, ltb, leb, Bool, true, false, Option, none, some,
  if◌then◌else◌, get_or, refl, Bool-cases, inl, inr, arith,
}

pub record LadderRung : Type 0 where
  pub rung : ℕ
  pub fps : ℕ
  pub scale_pct : ℕ
  pub temporal_layers : ℕ
  pub stills_only : Bool

abbrev row : ℕ → ℕ → ℕ → ℕ → Bool → LadderRung
row rung fps scale_pct temporal_layers stills_only = record {
  rung = rung;
  fps = fps;
  scale_pct = scale_pct;
  temporal_layers = temporal_layers;
  stills_only = stills_only;
}

abbrev pub ladder : List LadderRung
ladder =
    row 0 60 100 3 false
    ∷ row 1 60 100 3 false
    ∷ row 2 30 100 2 false
    ∷ row 3 30 75 2 false
    ∷ row 4 20 60 2 false
    ∷ row 5 12 50 1 false
    ∷ row 6 5 40 1 false
    ∷ row 7 1 40 1 true
    ∷ []

-- `LADDER[i]`; the last rung stands for the panic of an index out of bounds.
abbrev pub ladder_at : ℕ → LadderRung
ladder_at i = get_or ladder i (row 7 1 40 1 true)

-- The index that `select_rung` reads the ladder at.
unfoldable pub select_index : (bwe_bps loss_permille : ℕ) → ℕ
select_index bwe_bps loss_permille =
    if ltb 250 loss_permille
    then 7
    else if ltb 150 loss_permille
    then 6
    else if leb 8000000 bwe_bps
    then 0
    else if leb 4000000 bwe_bps
    then 1
    else if leb 2500000 bwe_bps
    then 2
    else if leb 1500000 bwe_bps
    then 3
    else if leb 800000 bwe_bps
    then 4
    else if leb 400000 bwe_bps
    then 5
    else 6

unfoldable pub select_rung : (bwe_bps loss_permille : ℕ) → LadderRung
unfolding select_index
select_rung bwe_bps loss_permille = ladder_at (select_index bwe_bps loss_permille)

pub record LadderController : Type 0 where
  pub current : ℕ
  pub pending : Option (ℕ × ℕ)
  pub demote_after_ms : ℕ
  pub promote_after_ms : ℕ

abbrev pub new : LadderController
new = record { current = 0; pending = none; demote_after_ms = 2000; promote_after_ms = 10000 }

-- How long a target must be pending.
unfoldable pub required : LadderController → ℕ → ℕ
required c target = if ltb c.current target then c.demote_after_ms else c.promote_after_ms

-- The match on the pending target.
unfoldable pub settle : Option (ℕ × ℕ) → LadderController → (target now_ms : ℕ) → LadderController
settle none c target now_ms = record c { pending = some (target, now_ms) }
settle (some (pending_target, since)) c target now_ms =
    if pending_target == target
    then (if leb (required c target) (now_ms - since)
        then record c { current = target; pending = none }
        else c)
    else record c { pending = some (target, now_ms) }

unfoldable pub retarget : LadderController → (target now_ms : ℕ) → LadderController
retarget c target now_ms =
    if target == c.current then record c { pending = none } else settle c.pending c target now_ms

unfoldable pub update :
    LadderController → (bwe_bps loss_permille now_ms : ℕ) → LadderController × LadderRung
update c bwe_bps loss_permille now_ms =
    let after = retarget c (select_rung bwe_bps loss_permille).rung now_ms in
    (after, ladder_at after.current)

index_rung :
    (bwe_bps loss_permille : ℕ)
    → (select_rung bwe_bps loss_permille).rung ≡ select_index bwe_bps loss_permille
unfolding select_rung
index_rung bwe_bps loss_permille = ground arith

-- More bandwidth at the same loss, or less loss at the same bandwidth, never selects a lower rung.
pub select_rung-monotone :
    (bwe_bps more loss_permille less : ℕ)
    → bwe_bps ≤ more
    → less ≤ loss_permille
    → (select_rung more less).rung ≤ (select_rung bwe_bps loss_permille).rung
unfolding select_index
select_rung-monotone bwe_bps more loss_permille less h l =
    rw (index_rung more less, index_rung bwe_bps loss_permille) (ground arith)
