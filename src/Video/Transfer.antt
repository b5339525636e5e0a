-- ===== src/Video/Transfer.antt =====
-- From the sender's `fragment_video` to the receiver's `accept`.
use remote.Prelude.{
  ◌∙◌, ℕ, suc, ◌+◌, ◌-◌, ◌%◌, ◌≤◌, ◌<◌, ◌≡◌, refl, ap, sym, List, [], ◌∷◌, some, length, drop,
  arith, ltb, ◌==◌, ◌||◌, not, true, false, get_elem?,
}
use remote.Proto.Payload.{Payload}
use remote.Proto.Fragment.{split, fragment_video, number}
use remote.Video.Reassembly
use remote.Video.Reassembly.{
  assemble, Reassembler, ReassemblyStats, Partial, EncodedFrame, Outcome, abandon_each, expired_ids,
  expire, evict, store, fill, accept_fragment, accept,
}
use remote.Video.Reassembly.Table.{find, add, replace}
use remote.Video.Reassembly.Honest.{joined, IsHonest}
use remote.Video.Reassembly.Completion.{accept_completes}
use remote.Video.Fragments.{
  joined-split, length-split, drop-cons, filled_to, length-filled_to, filled_to-vacant,
  filled_to-set, filled_to-Matches, count_filled-filled_to,
}

-- The frame of an outcome before those that follow.
abbrev frames : Outcome → List EncodedFrame → List EncodedFrame
frames (Outcome.frame f) fs = f ∷ fs
frames _ fs = fs

-- Payloads handed to the reassembler in order, the next one as number `k` of the arrivals, and the
-- frames that come out.
pub deliver : Reassembler → List Payload → (arrival : ℕ → ℕ) → ℕ → Reassembler × List EncodedFrame
deliver r [] arrival k = (r, [])
deliver r (p ∷ ps) arrival k =
    let (t, out) = accept r p (arrival k) in
    let (u, more) = deliver t ps arrival (suc k) in (u, frames out more)

module _ (id kind layer pts : ℕ) (cs : List (List ℕ)) (arrival : ℕ → ℕ)
    (timely : (k : ℕ) → k < length cs → arrival k ≤ arrival 0 + 400) where
  -- The frame after its first `k` fragments.
  abbrev held : ℕ → Partial
  held k = record {
    kind = kind;
    temporal_layer = layer;
    pts_us = pts;
    slots = filled_to k cs;
    filled = k;
    first_seen_ms = arrival 0;
  }

  abbrev state : ℕ → ReassemblyStats → Reassembler
  state k stats = record { partials = (id, held k) ∷ []; stats = stats }

  plus_one : (k : ℕ) → k + 1 ≡ suc k
  plus_one k = omega arith

  same_id : (id == id) ≡ true
  same_id = ground arith

  not_expired : (k : ℕ) → k < length cs → ltb 400 (arrival k - arrival 0) ≡ false
  not_expired k h = ground (arith, timely k h)

  expire-state :
      (j k : ℕ) (stats : ReassemblyStats)
      → k < length cs
      → expire (state j stats) (arrival k) ≡ state j stats
  unfolding expire expired_ids abandon_each
  expire-state j k stats h = rw (not_expired k h)

  held-IsHonest : (k : ℕ) → k ≤ length cs → IsHonest cs pts (held k)
  held-IsHonest k h = record {
    matches = filled_to-Matches k cs;
    counted = sym (count_filled-filled_to k cs h);
    stamped = refl;
  }

  fill-middle :
      (k : ℕ) (c : List ℕ) (stats : ReassemblyStats)
      → get_elem? cs k ≡ some c
      → k + 1 < length cs
      → fill (state k stats) id (held k) k (length cs) pts c
        ≡ (state (suc k) stats, Outcome.nothing)
  unfolding fill store replace evict
  fill-middle k c stats g h =
      let agree : (not (length (filled_to k cs) == length cs) || not (pts == pts)) ≡ false =
        ground (arith, length-filled_to k cs) in
      let more : (k + 1 == length (filled_to (suc k) cs)) ≡ false =
        ground (arith, length-filled_to (suc k) cs) in
      rw (agree, filled_to-vacant k cs c g, filled_to-set k cs c g, more, same_id, plus_one k)

  accept-middle :
      (k : ℕ) (c : List ℕ) (stats : ReassemblyStats)
      → get_elem? cs k ≡ some c
      → k + 1 < length cs
      → accept (state k stats) (Payload.video_frame id k (length cs) kind layer pts c) (arrival k)
        ≡ (state (suc k) (record stats { fragments = stats.fragments + 1 }), Outcome.nothing)
  unfolding accept accept_fragment find
  accept-middle k c stats g h = rw (
    expire-state k k stats (omega arith),
    accept_fragment,
    find,
    same_id,
    expire-state k k stats (omega arith),
    fill-middle k c (record stats { fragments = stats.fragments + 1 }) g h,
  )

  -- The first of several fragments, on an empty reassembler.
  accept-first :
      (c : List ℕ) (stats : ReassemblyStats)
      → get_elem? cs 0 ≡ some c
      → 1 < length cs
      → accept
          (record { partials = []; stats = stats })
          (Payload.video_frame id 0 (length cs) kind layer pts c)
          (arrival 0)
        ≡ (state 1 (record stats { fragments = stats.fragments + 1 }), Outcome.nothing)
  unfolding accept accept_fragment find expire expired_ids abandon_each add filled_to
  accept-first c stats g h =
      let several : (length cs == 1) ≡ false = ground arith in
      rw several (fill-middle 0 c (record stats { fragments = stats.fragments + 1 }) g h)

  deliver-rest :
      (k : ℕ) (rest : List (List ℕ)) (c : List ℕ) (stats : ReassemblyStats)
      → length cs < 65536
      → drop k cs ≡ c ∷ rest
      → (f : EncodedFrame) × ((deliver
            (state k stats)
            (number id kind layer pts (length cs) k (c ∷ rest))
            arrival
            k).1
          ≡ f ∷ [])
        × (f.bytes ≡ joined cs)
  unfolding deliver number find
  deliver-rest k [] c stats small d =
      let (at, next, size) = drop-cons k cs [] c d in
      let held_now : find id (expire (state k stats) (arrival k)).partials ≡ some (held k) =
        rw (expire-state k k stats (omega arith), same_id) in
      let done =
        accept_completes id cs pts (state k stats) (held k) k kind layer c (arrival k) held_now
          (held-IsHonest k (omega arith)) at (filled_to-vacant k cs c at) (omega arith) in
      let small_index : k % 65536 ≡ k = omega arith in
      (done.1.0, rw small_index (ap (λ o. frames o []) done.1.1), done.1.2)
  deliver-rest k (d ∷ rest) c stats small h =
      let (at, next, size) = drop-cons k cs (d ∷ rest) c h in
      let small_index : k % 65536 ≡ k = omega arith in
      let (f, out, whole) =
        deliver-rest (suc k) rest d (record stats { fragments = stats.fragments + 1 }) small next in
      (f, rw (small_index, accept-middle k c stats at (omega arith), plus_one k) out, whole)

deliver-all :
    (id kind layer pts : ℕ) (cs : List (List ℕ)) (arrival : ℕ → ℕ) (stats : ReassemblyStats)
    → ((k : ℕ) → k < length cs → arrival k ≤ arrival 0 + 400)
    → 1 ≤ length cs
    → length cs < 65536
    → (f : EncodedFrame) × ((deliver
          (record { partials = []; stats = stats })
          (number id kind layer pts (length cs) 0 cs)
          arrival
          0).1
        ≡ f ∷ [])
      × (f.bytes ≡ joined cs)
unfolding deliver number accept accept_fragment find expire expired_ids abandon_each assemble
deliver-all id kind layer pts [] arrival stats timely h small = absurd (omega arith)
deliver-all id kind layer pts (c ∷ []) arrival stats timely h small = (_, refl, refl)
deliver-all id kind layer pts (c ∷ d ∷ rest) arrival stats timely h small =
    let (f, out, whole) =
      deliver-rest id kind layer pts (c ∷ d ∷ rest) arrival timely 1 rest d
        (record stats { fragments = stats.fragments + 1 }) small refl in
    (
      f,
      rw (accept-first id kind layer pts (c ∷ d ∷ rest) arrival timely c stats refl (omega arith))
          out,
      whole,
    )

-- A video frame of up to 2 MiB, cut by `fragment_video` and handed to a new reassembler in order, each
-- fragment at any time up to 400 ms after the first one's, comes out once, with the same bytes.
pub deliver-fragment_video :
    (id kind layer pts : ℕ) (bytes : List ℕ) (arrival : ℕ → ℕ)
    → length bytes ≤ 2097152
    → ((k : ℕ) → k < length (split bytes) → arrival k ≤ arrival 0 + 400)
    → (f : EncodedFrame) × ((deliver Reassembly.new
          (fragment_video id kind layer pts bytes)
          arrival
          0).1
        ≡ f ∷ [])
      × (f.bytes ≡ bytes)
unfolding fragment_video
deliver-fragment_video id kind layer pts bytes arrival h timely =
    let (some_part, few) = length-split bytes h in
    let (f, out, whole) =
      deliver-all id kind layer pts (split bytes) arrival (Reassembly.new).stats timely some_part
        (omega arith) in
    let count : length (split bytes) % 65536 ≡ length (split bytes) = omega arith in
    (f, rw count out, whole ∙ joined-split bytes)
