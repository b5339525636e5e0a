-- ===== src/Tests/Playout.antt =====
-- A buffer with two frames, on an estimator that observes 30 ms.
use remote.Prelude.{ℕ, ◌≡◌, ◌≤◌, refl, [], ◌∷◌, some, none, arith}
use remote.Video.Reassembly.{EncodedFrame, FrameKind}
use remote.Video.Jitter
use remote.Video.Jitter.{JitterBuffer, Estimator, Queued, PlayoutDecision, push}
use remote.Video.Jitter.Playout.{poll, catch_up, abandon_stale, drop_late, play_front}
use remote.Video.Jitter.Valid.{IsValid, push-IsValid, poll_order}

abbrev steady : Estimator ℕ
steady = record { sample = λ j d n. j; percentile_95 = λ j. 30 }

abbrev frame_at : ℕ → EncodedFrame
frame_at pts = record {
  bytes = [];
  kind = FrameKind.delta;
  pts_us = pts;
  sequence = 0;
  temporal_layer = 0;
  ltr_index = none;
  qp = none;
}

abbrev queued : ℕ → ℕ → Queued
queued pts due = record { frame = frame_at pts; arrived_ms = 0; due_ms = due }

abbrev buffer : JitterBuffer ℕ
buffer = record (Jitter.new {J = ℕ} 0) {
  queue = queued 1000 40 ∷ queued 3000 60 ∷ [];
  last_played_pts_us = some 500;
}

buffer-IsValid : IsValid buffer
buffer-IsValid = record {
  ordered = (omega arith, omega arith, (omega arith, omega arith, tt));
  capped = omega arith;
  target_low = omega arith;
  target_high = omega arith;
}

push-IsValid_example : IsValid (push steady buffer (frame_at 2000) 50).0
push-IsValid_example = push-IsValid steady buffer (frame_at 2000) 50 buffer-IsValid

poll_order_example : (500 ≤ 1000) × ((poll buffer 45).0.last_played_pts_us ≡ some 1000)
unfolding poll drop_late play_front catch_up abandon_stale
poll_order_example = poll_order buffer 45 (frame_at 1000) buffer-IsValid refl
