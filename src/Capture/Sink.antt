-- ===== src/Capture/Sink.antt =====
-- crates/rda-capture/src/sink.rs: one slot between the capture thread and its reader. The lock makes
-- each operation one step; the wake-up of a waiting reader is not modelled.
use remote.Prelude.{ℕ, List, [], ◌∷◌, ◌≡◌, ◌+◌, Option, none, some, refl, ap, ◌∙◌, arith}

module _ (Frame : Type 0) where
  -- The slot and the shared counters.
  pub record Sink : Type 0 where
    pub slot : Option Frame
    pub produced : ℕ
    pub consumed : ℕ
    pub dropped : ℕ

  -- `slot.replace(frame).is_some()`.
  abbrev pub occupied : Option Frame → ℕ
  occupied none = 0
  occupied (some f) = 1

  unfoldable pub channel : Sink
  channel = record { slot = none; produced = 0; consumed = 0; dropped = 0 }

  unfoldable pub publish : Frame → Sink → Sink
  publish f s = record {
    slot = some f;
    produced = s.produced + 1;
    consumed = s.consumed;
    dropped = s.dropped + occupied s.slot;
  }

  unfoldable pub try_recv : Sink → Sink × Option Frame
  try_recv s = (record s { slot = none; consumed = s.consumed + occupied s.slot }, s.slot)

  -- Calls of both ends, in any order.
  pub data Call : Type 0 where
    published : Frame → Call
    polled : Call

  abbrev pub deliver : Option Frame → List Frame → List Frame
  deliver none more = more
  deliver (some f) more = f ∷ more

  -- What the reader got, oldest first, and the sink after all calls.
  unfoldable pub run : Sink → List Call → Sink × List Frame
  run s [] = (s, [])
  run s (published f ∷ rest) = run (publish f s) rest
  run s (polled ∷ rest) =
      let (t, got) = try_recv s in let (u, more) = run t rest in (u, deliver got more)

  -- The specification: the reader gets the newest frame since its last poll, if there is one.
  abbrev pub latest : Option Frame → List Call → List Frame
  latest pending [] = []
  latest pending (published f ∷ rest) = latest (some f) rest
  latest none (polled ∷ rest) = latest none rest
  latest (some f) (polled ∷ rest) = f ∷ latest none rest

  deliver-latest :
      (o : Option Frame) (rest : List Call)
      → deliver o (latest none rest) ≡ latest o (polled ∷ rest)
  deliver-latest none rest = refl
  deliver-latest (some f) rest = refl

  -- The slot implements the specification: whatever the interleaving, a poll gives the newest frame
  -- that was published since the last one, and nothing if there is none.
  pub run-latest : (s : Sink) (calls : List Call) → (run s calls).1 ≡ latest s.slot calls
  unfolding run publish try_recv
  run-latest s [] = refl
  run-latest s (published f ∷ rest) = run-latest (publish f s) rest
  run-latest s (polled ∷ rest) =
      ap (deliver s.slot) (run-latest (try_recv s).0 rest) ∙ deliver-latest s.slot rest

  -- Every frame that was produced was consumed, was dropped or waits in the slot.
  abbrev pub Balanced : Sink → Type 0
  Balanced s = s.produced ≡ s.consumed + s.dropped + occupied s.slot

  -- After any calls no frame is lost without being counted.
  pub run-Balanced : (s : Sink) (calls : List Call) → Balanced s → Balanced (run s calls).0
  unfolding run publish try_recv
  run-Balanced s [] h = h
  run-Balanced s (published f ∷ rest) h = run-Balanced (publish f s) rest (omega arith)
  run-Balanced s (polled ∷ rest) h = run-Balanced (try_recv s).0 rest (omega arith)
