-- ===== src/Video/Jitter/Valid.antt =====
-- The invariant of the buffer, and the order of what it plays.
use remote.Prelude.{
  ℕ, ◌+◌, ◌-◌, ◌≤◌, ◌≡◌, refl, List, [], ◌∷◌, false, ltb, Option, none, some, length, arith,
  Bool-cases, Option-cases, inl, inr, ap, subst, ◌⊎◌,
}
use remote.Video.Reassembly.{EncodedFrame}
use remote.Video.Jitter.{
  JitterBuffer, Queued, Estimator, PlayoutDecision, place, adapt, adapt_target, arrive, enqueue,
  push, is_played,
}
use remote.Video.Jitter.Playout.{catch_up, idle, play_front, drop_late, poll}
use remote.Video.Jitter.Order.{
  IsChain, place-IsChain, trim-IsChain, length-trim, catch_up-IsChain, length-catch_up,
  abandon_stale-IsChain, length-abandon_stale, weaken-IsChain,
}

-- The timestamp of the last frame played, or 0.
abbrev pub played_pts : Option ℕ → ℕ
played_pts none = 0
played_pts (some pts) = pts

-- Queued frames in the order of timestamp and of deadline, none older than the last one played;
-- at most 120 of them; the target between its bounds.
pub record IsValid {J : Type 0} (b : JitterBuffer J) : Type 0 where
  pub ordered : IsChain (played_pts b.last_played_pts_us) 0 b.queue
  pub capped : length b.queue ≤ 120
  pub target_low : 15 ≤ b.target_ms
  pub target_high : b.target_ms ≤ 200

not_played : (o : Option ℕ) (pts : ℕ) → is_played o pts ≡ false → played_pts o ≤ pts
not_played none pts h = omega arith
not_played (some p) pts h = ground arith

adapt_bounds :
    (observed target last now : ℕ)
    → (15 ≤ (adapt observed target last now).0) × ((adapt observed target last now).0 ≤ 200)
unfolding adapt
adapt_bounds observed target last now = (ground arith, ground arith)

module _ {J : Type 0} (api : Estimator J) where
  enqueue-IsValid :
      (b : JitterBuffer J) (frame : EncodedFrame) (now : ℕ)
      → played_pts b.last_played_pts_us ≤ frame.pts_us
      → IsValid b
      → IsValid (enqueue api b frame now)
  unfolding enqueue
  enqueue-IsValid b frame now newer v =
      let q : Queued = record { frame = frame; arrived_ms = now; due_ms = now + b.target_ms } in
      let added = place 0 q b.queue in
      record {
        ordered =
            trim-IsChain (length added) (played_pts b.last_played_pts_us) 0 added
              (place-IsChain (played_pts b.last_played_pts_us) 0 q b.queue newer v.ordered);
        capped = length-trim (length added) added (omega arith);
        target_low = v.target_low;
        target_high = v.target_high;
      }

  -- Pushing a frame, at any time and whatever the jitter, keeps the queue in the order of timestamp
  -- and deadline, no frame in it older than the last one played, at most 120 long, and the target
  -- between 15 and 200 ms.
  pub push-IsValid :
      (b : JitterBuffer J) (frame : EncodedFrame) (now : ℕ)
      → IsValid b
      → IsValid (push api b frame now).0
  unfolding push arrive adapt_target
  push-IsValid b frame now v = elim (Bool-cases (is_played b.last_played_pts_us frame.pts_us)) [
    | inl e ↦
        rw (e, push)
          (record {
            ordered = v.ordered;
            capped = v.capped;
            target_low = v.target_low;
            target_high = v.target_high;
          })
    | inr e ↦
        rw (e, push)
          (enqueue-IsValid (adapt_target api (arrive api b frame now) now) frame now
            (not_played b.last_played_pts_us frame.pts_us e)
            (record {
              ordered = v.ordered;
              capped = v.capped;
              target_low = (adapt_bounds _ b.target_ms b.last_decay_ms now).0;
              target_high = (adapt_bounds _ b.target_ms b.last_decay_ms now).1;
            }))
  ]

module _ {J : Type 0} where
  drop_late-IsValid : (b : JitterBuffer J) (now : ℕ) → IsValid b → IsValid (drop_late b now)
  unfolding drop_late
  drop_late-IsValid b now v =
      let p = played_pts b.last_played_pts_us in
      let caught = (catch_up now b.queue).0 in
      record {
        ordered = abandon_stale-IsChain now p 0 caught (catch_up-IsChain now p 0 b.queue v.ordered);
        capped =
            omega (arith, length-abandon_stale now caught, length-catch_up now b.queue, v.capped);
        target_low = v.target_low;
        target_high = v.target_high;
      }

  same_queue-IsValid :
      (b c : JitterBuffer J)
      → c.queue ≡ b.queue
      → c.last_played_pts_us ≡ b.last_played_pts_us
      → c.target_ms ≡ b.target_ms
      → IsValid b
      → IsValid c
  same_queue-IsValid b c q p t v = record {
    ordered = rw (q, p) v.ordered;
    capped = rw q v.capped;
    target_low = rw t v.target_low;
    target_high = rw t v.target_high;
  }

  -- An empty queue plays nothing, and stays as it is.
  idle_waits :
      (b : JitterBuffer J) (now : ℕ)
      → ((idle b now).0.queue ≡ b.queue)
        × ((idle b now).0.last_played_pts_us ≡ b.last_played_pts_us)
        × ((idle b now).0.target_ms ≡ b.target_ms)
        × (((idle b now).1 ≡ PlayoutDecision.wait) ⊎ ((idle b now).1 ≡ PlayoutDecision.starved))
  unfolding idle
  idle_waits b now = elim (Option-cases b.empty_since_ms) [
    | inl e ↦ simp (e, idle) (refl, refl, refl, inl refl)
    | inr (since, e) ↦ elim (Bool-cases (ltb 500 (now - since))) [
      | inl h ↦ simp (e, h, idle) (refl, refl, refl, inr refl)
      | inr h ↦ simp (e, h, idle) (refl, refl, refl, inl refl)
    ]
  ]

  idle-IsValid : (b : JitterBuffer J) (now : ℕ) → IsValid b → IsValid (idle b now).0
  idle-IsValid b now v =
      let (q, p, t, w) = idle_waits b now in same_queue-IsValid b (idle b now).0 q p t v

  play_front-IsValid :
      (b : JitterBuffer J) (q : List Queued) (now : ℕ)
      → b.queue ≡ q
      → IsValid b
      → IsValid (play_front b q now).0
  unfolding play_front
  play_front-IsValid b [] now e v = idle-IsValid b now v
  play_front-IsValid b (x ∷ rest) now e v =
      let chain : IsChain (played_pts b.last_played_pts_us) 0 (x ∷ rest) =
        subst (IsChain (played_pts b.last_played_pts_us) 0) e v.ordered in
      elim (Bool-cases (ltb now x.due_ms)) [
        | inl h ↦ rw h v
        | inr h ↦ rw h (record {
          ordered =
              weaken-IsChain x.frame.pts_us x.due_ms x.frame.pts_us 0 rest (omega arith)
                (omega arith) chain.2;
          capped = omega (arith, ap length e, v.capped);
          target_low = v.target_low;
          target_high = v.target_high;
        })
      ]

  -- Polling, whatever it plays or drops, keeps the queue in the order of timestamp and deadline, no
  -- frame in it older than the last one played, at most 120 long, and the target between 15 and
  -- 200 ms.
  pub poll-IsValid : (b : JitterBuffer J) (now : ℕ) → IsValid b → IsValid (poll b now).0
  unfolding poll
  poll-IsValid b now v =
      play_front-IsValid (drop_late b now) (drop_late b now).queue now refl
        (drop_late-IsValid b now v)

  play_front_order :
      (b : JitterBuffer J) (q : List Queued) (now : ℕ) (f : EncodedFrame)
      → b.queue ≡ q
      → IsValid b
      → (play_front b q now).1 ≡ PlayoutDecision.play f
      → (played_pts b.last_played_pts_us ≤ f.pts_us)
        × ((play_front b q now).0.last_played_pts_us ≡ some f.pts_us)
  unfolding play_front
  play_front_order b [] now f e v h = elim (idle_waits b now).3 [
    | inl w ↦ absurd cc
    | inr w ↦ absurd cc
  ]
  play_front_order b (x ∷ rest) now f e v h =
      let chain : IsChain (played_pts b.last_played_pts_us) 0 (x ∷ rest) =
        subst (IsChain (played_pts b.last_played_pts_us) 0) e v.ordered in
      elim (Bool-cases (ltb now x.due_ms)) [
        | inl d ↦
            let at : (play_front b (x ∷ rest) now).1 ≡ PlayoutDecision.wait = rw (d, play_front) in
            absurd cc
        | inr d ↦
            let at : (play_front b (x ∷ rest) now).1 ≡ PlayoutDecision.play x.frame =
              rw (d, play_front) in
            let same : x.frame ≡ f = cc in
            let stamp : x.frame.pts_us ≡ f.pts_us = ap (λ g. g.pts_us) same in
            (omega (arith, chain.0, stamp), rw (d, play_front) (ap some stamp))
      ]

  -- A frame that is played is no older than the one played before it, and becomes the last one
  -- played.
  pub poll_order :
      (b : JitterBuffer J) (now : ℕ) (f : EncodedFrame)
      → IsValid b
      → (poll b now).1 ≡ PlayoutDecision.play f
      → (played_pts b.last_played_pts_us ≤ f.pts_us)
        × ((poll b now).0.last_played_pts_us ≡ some f.pts_us)
  unfolding poll drop_late
  poll_order b now f v h =
      play_front_order (drop_late b now) (drop_late b now).queue now f refl
        (drop_late-IsValid b now v) h
