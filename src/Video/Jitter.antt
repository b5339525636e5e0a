-- ===== src/Video/Jitter.antt =====
-- crates/rda-decode/src/jitter.rs: the playout buffer. The jitter estimator (rda-telemetry, floating
-- point) is an interface: what the buffer promises holds for any of them.
pub mod Order
pub mod Playout
pub mod Valid
use remote.Prelude.{
  ℕ, zero, suc, ◌+◌, ◌-◌, ◌*◌, ◌/◌, ◌%◌, min, max, List, [], ◌∷◌, Bool, true, false, ◌&&◌, ltb, leb,
  ◌==◌, Option, none, some, if◌then◌else◌, length,
}
use remote.Video.Reassembly.{EncodedFrame, FrameKind}

abbrev pub min_target_ms : ℕ
min_target_ms = 15

abbrev pub max_target_ms : ℕ
max_target_ms = 200

abbrev pub decay_ms_per_s : ℕ
decay_ms_per_s = 5

abbrev pub max_queued_frames : ℕ
max_queued_frames = 120

abbrev pub catchup_slack_ms : ℕ
catchup_slack_ms = 100

abbrev pub stale_after_ms : ℕ
stale_after_ms = 500

pub data PlayoutDecision : Type 0 where
  play : EncodedFrame → PlayoutDecision
  wait starved : PlayoutDecision

-- `sample(deviation, now)` and `percentile_ms(0.95)`.
pub record Estimator (J : Type 0) : Type 0 where
  pub sample : J → ℕ → ℕ → J
  pub percentile_95 : J → ℕ

pub record Queued : Type 0 where
  pub frame : EncodedFrame
  pub arrived_ms : ℕ
  pub due_ms : ℕ

pub record JitterStats : Type 0 where
  pub accepted : ℕ
  pub played : ℕ
  pub dropped_late : ℕ
  pub dropped_overflow : ℕ
  pub dropped_reordered : ℕ
  pub starvations : ℕ

pub record JitterBuffer (J : Type 0) : Type 0 where
  pub queue : List Queued
  pub target_ms : ℕ
  pub jitter : J
  pub last_arrival_ms : Option ℕ
  pub last_pts_us : Option ℕ
  pub last_played_pts_us : Option ℕ
  pub last_decay_ms : ℕ
  pub empty_since_ms : Option ℕ
  pub stats : JitterStats

abbrev pub new : {J : Type 0} → J → JitterBuffer J
new jitter = record {
  queue = [];
  target_ms = min_target_ms;
  jitter = jitter;
  last_arrival_ms = none;
  last_pts_us = none;
  last_played_pts_us = none;
  last_decay_ms = 0;
  empty_since_ms = none;
  stats = record {
    accepted = 0;
    played = 0;
    dropped_late = 0;
    dropped_overflow = 0;
    dropped_reordered = 0;
    starvations = 0;
  };
}

-- EncodedFrame::is_discardable.
abbrev is_none : Option ℕ → Bool
is_none none = true
is_none (some n) = false

abbrev is_delta : FrameKind → Bool
is_delta FrameKind.delta = true
is_delta _ = false

abbrev pub is_discardable : EncodedFrame → Bool
is_discardable f = ltb 0 f.temporal_layer && is_none f.ltr_index && is_delta f.kind

-- The loop over the frames behind the new one.
unfoldable pub raise : ℕ → List Queued → List Queued
raise due [] = []
raise due (x ∷ xs) = let later = max x.due_ms due in record x { due_ms = later } ∷ raise later xs

-- The insertion in timestamp order; `before` is the deadline of the frame in front.
unfoldable pub place : ℕ → Queued → List Queued → List Queued
place before q [] = record q { due_ms = max q.due_ms before } ∷ []
place before q (x ∷ xs) =
    let due = max q.due_ms before in
    let more = place x.due_ms q xs in
    if ltb q.frame.pts_us x.frame.pts_us
    then record q { due_ms = due } ∷ raise due (x ∷ xs)
    else x ∷ more

-- `position(is_discardable)`: does the queue have one?
unfoldable pub has_discardable : List Queued → Bool
has_discardable [] = false
has_discardable (x ∷ xs) =
    let more = has_discardable xs in if is_discardable x.frame then true else more

unfoldable pub remove_discardable : List Queued → List Queued
remove_discardable [] = []
remove_discardable (x ∷ xs) =
    let more = remove_discardable xs in if is_discardable x.frame then xs else x ∷ more

abbrev pub rest_of : List Queued → List Queued
rest_of [] = []
rest_of (x ∷ xs) = xs

unfoldable pub remove_victim : List Queued → List Queued
remove_victim q = if has_discardable q then remove_discardable q else rest_of q

-- The loop of `enforce_capacity`: the queue, and how many frames were dropped. Each round removes
-- one, so as many rounds as frames are enough.
unfoldable pub trim : ℕ → List Queued → List Queued × ℕ
trim zero q = (q, 0)
trim (suc n) q =
    let (kept, dropped) = trim n (remove_victim q) in
    if ltb max_queued_frames (length q) then (kept, dropped + 1) else (q, 0)

-- `adapt_target`'s new target and time of the last decay, from what the estimator observes.
unfoldable pub adapt : ℕ → ℕ → ℕ → ℕ → ℕ × ℕ
adapt observed target last_decay now_ms =
    let seconds = (now_ms - last_decay) / 1000 in
    let decay = min (decay_ms_per_s * seconds) 4294967295 in
    let (next, at) =
      (if ltb target observed
        then (min observed max_target_ms, now_ms)
        else if leb 1000 (now_ms - last_decay)
        then (max (target - decay) min_target_ms, now_ms)
        else (target, last_decay)) in
    (min (max next min_target_ms) max_target_ms, at)

-- `(arrival_gap - pts_gap).unsigned_abs() as u32`, capped; gaps below 2 ^ 63, the range of an i64.
abbrev deviation : ℕ → ℕ → ℕ
deviation a b = min ((if ltb a b then b - a else a - b) % 4294967296) 1000

abbrev pub is_played : Option ℕ → ℕ → Bool
is_played none pts = false
is_played (some played) pts = leb pts played

module _ {J : Type 0} (api : Estimator J) where
  open api use {sample, percentile_95}

  unfoldable pub measure : Option ℕ → Option ℕ → J → ℕ → ℕ → J
  measure (some prev_arrival) (some prev_pts) jitter pts_us now_ms =
      sample jitter (deviation (now_ms - prev_arrival) ((pts_us - prev_pts) / 1000)) now_ms
  measure _ _ jitter pts_us now_ms = jitter

  -- The part of `push` up to the check of the last frame played.
  unfoldable pub arrive : JitterBuffer J → EncodedFrame → ℕ → JitterBuffer J
  arrive b frame now_ms = record b {
    jitter = measure b.last_arrival_ms b.last_pts_us b.jitter frame.pts_us now_ms;
    last_arrival_ms = some now_ms;
    last_pts_us = some frame.pts_us;
    stats = record (b.stats) { accepted = b.stats.accepted + 1 };
  }

  unfoldable pub adapt_target : JitterBuffer J → ℕ → JitterBuffer J
  adapt_target b now_ms =
      let (target, at) = adapt (percentile_95 b.jitter) b.target_ms b.last_decay_ms now_ms in
      record b { target_ms = target; last_decay_ms = at }

  -- The part after `adapt_target`.
  unfoldable pub enqueue : JitterBuffer J → EncodedFrame → ℕ → JitterBuffer J
  enqueue b frame now_ms =
      let added =
        place 0 (record { frame = frame; arrived_ms = now_ms; due_ms = now_ms + b.target_ms })
          b.queue in
      let (kept, dropped) = trim (length added) added in
      record b {
        queue = kept;
        empty_since_ms = none;
        stats = record (b.stats) { dropped_overflow = b.stats.dropped_overflow + dropped };
      }

  unfoldable pub push : JitterBuffer J → EncodedFrame → ℕ → JitterBuffer J × Bool
  push b frame now_ms =
      let seen = arrive b frame now_ms in
      if is_played b.last_played_pts_us frame.pts_us
      then (
        record seen {
          stats = record (seen.stats) { dropped_reordered = seen.stats.dropped_reordered + 1 };
        },
        false,
      )
      else (enqueue (adapt_target seen now_ms) frame now_ms, true)
