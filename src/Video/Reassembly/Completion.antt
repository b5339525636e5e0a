-- ===== src/Video/Reassembly/Completion.antt =====
-- The last fragment of a frame completes it.
use remote.Prelude.{
  ℕ, ◌+◌, ◌≡◌, refl, List, none, some, length, arith, ◌==◌, ◌||◌, not, true, false, get_elem?, set,
  length-set,
}
use remote.Proto.Payload.{Payload}
use remote.Video.Reassembly.{
  Reassembler, Partial, EncodedFrame, Outcome, assemble, expire, store, fill, accept_fragment,
  accept,
}
use remote.Video.Reassembly.Table.{find, find-remove_same}
use remote.Video.Reassembly.Honest.{
  joined, IsHonest, count_filled, set-Matches, count_filled-set, flatten-full, Matches-length,
}

module _ (id : ℕ) (cs : List (List ℕ)) (pts : ℕ) where
  fragment_completes :
      (r : Reassembler) (p : Partial) (index kind layer : ℕ) (c : List ℕ) (now : ℕ)
      → find id r.partials ≡ some p
      → IsHonest cs pts p
      → get_elem? cs index ≡ some c
      → get_elem? p.slots index ≡ some none
      → p.filled + 1 ≡ length cs
      → let t = accept_fragment r id index (length cs) kind layer pts c now in
        (find id t.0.partials ≡ none)
        × ((f : EncodedFrame) × (t.1 ≡ Outcome.frame f) × (f.bytes ≡ joined cs))
  unfolding accept_fragment fill store assemble
  fragment_completes r p index kind layer c now f h g s last =
      let size = Matches-length p.slots cs h.matches in
      let agree : (not (length p.slots == length cs) || not (p.pts_us == pts)) ≡ false =
        ground (arith, size, h.stamped) in
      let slots = set p.slots index (some c) in
      let done : (p.filled + 1 == length slots) ≡ true =
        ground (arith, size, length-set p.slots index (some c)) in
      let full : count_filled slots ≡ length slots = omega (
        arith,
        count_filled-set p.slots index c s,
        h.counted,
        size,
        last,
        length-set p.slots index (some c),
      ) in
      rw (f, accept_fragment, agree, fill, s, store, done)
        (
          find-remove_same id r.partials,
          (
            assemble (record p { slots = slots; filled = p.filled + 1 }),
            refl,
            flatten-full slots cs (set-Matches p.slots cs index c h.matches g) full,
          ),
        )

  -- The last missing fragment of a frame that is still held after the expiry brings the whole frame
  -- out, and nothing of it is held any more.
  pub accept_completes :
      (r : Reassembler) (p : Partial) (index kind layer : ℕ) (c : List ℕ) (now : ℕ)
      → find id (expire r now).partials ≡ some p
      → IsHonest cs pts p
      → get_elem? cs index ≡ some c
      → get_elem? p.slots index ≡ some none
      → p.filled + 1 ≡ length cs
      → let t = accept r (Payload.video_frame id index (length cs) kind layer pts c) now in
        (find id t.0.partials ≡ none)
        × ((f : EncodedFrame) × (t.1 ≡ Outcome.frame f) × (f.bytes ≡ joined cs))
  unfolding accept
  accept_completes r p index kind layer c now f h g s last =
      fragment_completes _ p index kind layer c now f h g s last
