-- ===== src/Video/Jitter/Playout.antt =====
-- jitter.rs, `poll` and `reset`.
use remote.Prelude.{ℕ, ◌+◌, ◌-◌, ◌%◌, List, [], ◌∷◌, ◌&&◌, ltb, leb, none, some, if◌then◌else◌}
use remote.Video.Jitter.{JitterBuffer, Queued, PlayoutDecision, catchup_slack_ms, stale_after_ms}

-- The catch-up loop: the queue after it, and how many frames were skipped.
unfoldable pub catch_up : ℕ → List Queued → List Queued × ℕ
catch_up now_ms [] = ([], 0)
catch_up now_ms (x ∷ []) = (x ∷ [], 0)
catch_up now_ms (x ∷ y ∷ rest) =
    let (kept, skipped) = catch_up now_ms (y ∷ rest) in
    if ltb (x.due_ms + catchup_slack_ms) now_ms && leb y.due_ms now_ms
    then (kept, skipped + 1)
    else (x ∷ y ∷ rest, 0)

-- The single frame that is hopelessly late.
unfoldable pub abandon_stale : ℕ → List Queued → List Queued × ℕ
abandon_stale now_ms [] = ([], 0)
abandon_stale now_ms (x ∷ rest) =
    if ltb (x.due_ms + stale_after_ms) now_ms then (rest, 1) else (x ∷ rest, 0)

module _ {J : Type 0} where
  -- An empty queue.
  unfoldable pub idle : JitterBuffer J → ℕ → JitterBuffer J × PlayoutDecision
  idle b now_ms = elim b.empty_since_ms [
    | none ↦ (record b { empty_since_ms = some now_ms }, PlayoutDecision.wait)
    | some since ↦
        if ltb 500 (now_ms - since)
        then (
          record b {
            empty_since_ms = some now_ms;
            stats = record (b.stats) { starvations = b.stats.starvations + 1 };
          },
          PlayoutDecision.starved,
        )
        else (b, PlayoutDecision.wait)
  ]

  -- The front frame, played when it is due.
  unfoldable pub play_front : JitterBuffer J → List Queued → ℕ → JitterBuffer J × PlayoutDecision
  play_front b [] now_ms = idle b now_ms
  play_front b (x ∷ rest) now_ms = if ltb now_ms x.due_ms then (b, PlayoutDecision.wait) else (
    record b {
      queue = rest;
      last_played_pts_us = some x.frame.pts_us;
      stats = record (b.stats) { played = b.stats.played + 1 };
    },
    PlayoutDecision.play x.frame,
  )

  unfoldable pub drop_late : JitterBuffer J → ℕ → JitterBuffer J
  drop_late b now_ms =
      let (caught, skipped) = catch_up now_ms b.queue in
      let (kept, stale) = abandon_stale now_ms caught in
      record b {
        queue = kept;
        stats = record (b.stats) { dropped_late = b.stats.dropped_late + skipped + stale };
      }

  unfoldable pub poll : JitterBuffer J → ℕ → JitterBuffer J × PlayoutDecision
  poll b now_ms = let late = drop_late b now_ms in play_front late late.queue now_ms

  unfoldable pub reset : JitterBuffer J → JitterBuffer J
  reset b = record b {
    queue = [];
    last_played_pts_us = none;
    last_arrival_ms = none;
    last_pts_us = none;
    empty_since_ms = none;
  }

  -- `as u32`.
  unfoldable pub oldest_age_ms : JitterBuffer J → ℕ → ℕ
  oldest_age_ms b now_ms = elim b.queue [ [] ↦ 0 | q ∷ rest ↦ (now_ms - q.arrived_ms) % 4294967296 ]
