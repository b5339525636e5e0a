-- ===== src/Telemetry/Sequence.antt =====
-- lib.rs, `SequenceTracker`: received and lost packets from 16-bit sequence numbers; u32 counters.
use remote.Prelude.{
  ℕ, ◌≡◌, ◌≤◌, ◌<◌, ◌+◌, ◌-◌, ◌%◌, ◌==◌, leb, Option, none, some, if◌then◌else◌, ◌∙◌, sym, refl, ap,
  arith,
}

abbrev pub max_reorder : ℕ
max_reorder = 256

pub record SequenceTracker : Type 0 where
  pub highest : Option ℕ
  pub received : ℕ
  pub lost : ℕ

abbrev pub new : SequenceTracker
new = record { highest = none; received = 0; lost = 0 }

-- `a.wrapping_sub(b)`.
abbrev pub wrapping_sub : ℕ → ℕ → ℕ
wrapping_sub a b = (a + 65536 - b) % 65536

-- From the newest sequence number on.
unfoldable pub observe_from : SequenceTracker → ℕ → ℕ → SequenceTracker
observe_from s highest sequence =
    let advance = wrapping_sub sequence highest in
    if advance == 0
    then s
    else if leb advance max_reorder
    then record s { lost = (s.lost + (advance - 1)) % 4294967296; highest = some sequence }
    else if leb (wrapping_sub highest sequence) max_reorder
    then record s { lost = s.lost - 1 }
    else record s { highest = some sequence }

-- By the newest sequence number, if there is one.
unfoldable pub observe_at : Option ℕ → SequenceTracker → ℕ → SequenceTracker
observe_at none s sequence = record s { highest = some sequence }
observe_at (some highest) s sequence = observe_from s highest sequence

-- One packet counted.
abbrev pub counted : SequenceTracker → SequenceTracker
counted s = record s { received = (s.received + 1) % 4294967296 }

unfoldable pub observe : SequenceTracker → ℕ → SequenceTracker
observe s sequence = observe_at s.highest (counted s) sequence

-- The counts, and the tracker with its counts at zero.
unfoldable pub take : SequenceTracker → SequenceTracker × (ℕ × ℕ)
take s = (record s { received = 0; lost = 0 }, (s.received, s.lost))

observe_eq :
    (s : SequenceTracker) (highest sequence : ℕ)
    → s.highest ≡ some highest
    → observe s sequence ≡ observe_from (counted s) highest sequence
unfolding observe observe_at
observe_eq s highest sequence head = ap (λ o. observe_at o (counted s) sequence) head

ahead :
    (s : SequenceTracker) (highest sequence k : ℕ)
    → wrapping_sub sequence highest ≡ k
    → 1 ≤ k
    → k ≤ 256
    → observe_from s highest sequence
      ≡ record s { lost = (s.lost + (k - 1)) % 4294967296; highest = some sequence }
unfolding observe_from
ahead s highest sequence k e near window = ground arith

behind :
    (s : SequenceTracker) (highest sequence k : ℕ)
    → wrapping_sub highest sequence ≡ k
    → wrapping_sub sequence highest ≡ 65536 - k
    → 1 ≤ k
    → k ≤ 256
    → observe_from s highest sequence ≡ record s { lost = s.lost - 1 }
unfolding observe_from
behind s highest sequence k e back near window = ground arith

module _ (s : SequenceTracker) (highest a b : ℕ) (near : 1 ≤ a) (ordered : a < b) (window : b ≤ 256)
    (in_range : highest < 65536) (head : s.highest ≡ some highest)
    (room : s.lost + 256 < 4294967296) where
  -- The tracker after both packets.
  abbrev both : SequenceTracker
  both = record {
    highest = some ((highest + b) % 65536);
    received = ((s.received + 1) % 4294967296 + 1) % 4294967296;
    lost = s.lost + (b - 2);
  }

  abbrev with_lost : ℕ → SequenceTracker
  with_lost n = record both { lost = n }

  in_order : observe (observe s ((highest + a) % 65536)) ((highest + b) % 65536) ≡ both
  in_order =
      let newest = (highest + b) % 65536 in
      let early = (highest + a) % 65536 in
      let first =
        observe_eq s highest early head
        ∙ ahead (counted s) highest early a (omega arith) near (omega arith) in
      rw first (
        observe_eq _ early newest refl
        ∙ ahead _ early newest (b - a) (omega arith) (omega arith) (omega arith)
        ∙ ap with_lost (omega arith))

  out_of_order : observe (observe s ((highest + b) % 65536)) ((highest + a) % 65536) ≡ both
  out_of_order =
      let newest = (highest + b) % 65536 in
      let late = (highest + a) % 65536 in
      let first =
        observe_eq s highest newest head
        ∙ ahead (counted s) highest newest b (omega arith) (omega arith) window in
      rw first (
        observe_eq _ newest late refl
        ∙ behind _ newest late (b - a) (omega arith) (omega arith) (omega arith) (omega arith)
        ∙ ap with_lost (omega arith))

  -- Two packets ahead of the newest, within the window, count the same in either order: what the
  -- later one skipped is given back when the earlier one arrives.
  pub observe_swap :
      observe (observe s ((highest + a) % 65536)) ((highest + b) % 65536)
      ≡ observe (observe s ((highest + b) % 65536)) ((highest + a) % 65536)
  observe_swap = in_order ∙ sym out_of_order
