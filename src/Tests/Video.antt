-- ===== src/Tests/Video.antt =====
-- Frame 7, of two fragments.
use remote.Video.Fragments.{length-split}
use remote.Prelude.{
  length-replicate, length, ◌*◌, ◌<◌, replicate, ◌+◌, ℕ, ◌≡◌, ◌≤◌, refl, List, [], ◌∷◌, some, none,
  arith, IfSome,
}
use remote.Proto.Payload.{Payload}
use remote.Proto.WellFormed.{IsWire}
use remote.Video.Reassembly
use remote.Video.Reassembly.{
  Reassembler, Partial, EncodedFrame, Outcome, accept, in_flight, expire, expired_ids, abandon_each,
}
use remote.Video.Reassembly.Table.{find}
use remote.Proto.Fragment.{split, fragment_video}
use remote.Video.Transfer.{deliver, deliver-fragment_video}
use remote.Video.Reassembly.Cap.{accept_capped}
use remote.Video.Reassembly.Honest.{IsHonest, IsRight, joined}
use remote.Video.Reassembly.Completion.{accept_completes}
use remote.Video.Reassembly.Delivery.{accept_honest}

abbrev parts : List (List ℕ)
parts = (1 ∷ 2 ∷ []) ∷ (3 ∷ []) ∷ []

abbrev half : Partial
half = record {
  kind = 1;
  temporal_layer = 0;
  pts_us = 900;
  slots = none ∷ some (3 ∷ []) ∷ [];
  filled = 1;
  first_seen_ms = 10;
}

half-IsHonest : IsHonest parts 900 half
half-IsHonest = record { matches = (refl, tt); counted = refl; stamped = refl }

abbrev waiting : Reassembler
waiting = record (Reassembly.new) { partials = (7, half) ∷ [] }

abbrev first : Payload
first = Payload.video_frame 7 0 2 1 0 900 (1 ∷ 2 ∷ [])

accept_honest_example :
    IfSome (IsHonest parts 900) (find 7 (accept waiting first 20).0.partials)
    × IsRight parts (accept waiting first 20).1
unfolding find
accept_honest_example = accept_honest 7 parts 900 waiting 0 1 0 (1 ∷ 2 ∷ []) 20 half-IsHonest refl

accept_completes_example :
    (find 7 (accept waiting first 20).0.partials ≡ none)
    × ((f : EncodedFrame) × ((accept waiting first 20).1 ≡ Outcome.frame f)
        × (f.bytes ≡ joined parts))
unfolding find expire expired_ids abandon_each
accept_completes_example =
    accept_completes 7 parts 900 waiting half 0 1 0 (1 ∷ 2 ∷ []) 20 refl half-IsHonest refl refl
      refl

first-IsWire : IsWire first
first-IsWire = record {
  frame_id_u32 = omega arith;
  count_range = (omega arith, omega arith);
  index_inside = omega arith;
  kind_known = omega arith;
  pts_us_u64 = omega arith;
  len_capped = omega arith;
}

accept_capped_example : in_flight (accept waiting first 20).0 ≤ 16
accept_capped_example = accept_capped waiting first 20 first-IsWire (omega arith)

-- A frame of two fragments, and arrivals three milliseconds apart.
abbrev long : List ℕ
long = replicate 20000 7

length-long : length long ≤ 2097152
length-long = omega (arith, length-replicate {A = ℕ} 20000 7)

abbrev arrival : ℕ → ℕ
arrival k = 20 + 3 * k

long-timely : (k : ℕ) → k < length (split long) → arrival k ≤ arrival 0 + 400
long-timely k h = omega (arith, h, (length-split long length-long).1)

deliver-fragment_video_example :
    (f : EncodedFrame) × ((deliver Reassembly.new (fragment_video 7 1 0 900 long) arrival 0).1
      ≡ f ∷ [])
    × (f.bytes ≡ long)
deliver-fragment_video_example =
    deliver-fragment_video 7 1 0 900 long arrival length-long long-timely
