-- ===== src/Video/Accepted.antt =====
-- The decoder lets every fragment of a frame through.
use remote.Prelude.{ℕ, zero, suc, ◌+◌, ◌%◌, ◌≤◌, List, [], ◌∷◌, length, take, drop, arith, All}
use remote.Proto.Fragment.{chunks, split, number, fragment_video}
use remote.Proto.WellFormed.{IsWire, IsU32, IsU64}
use remote.Video.Fragments.{length-split}

length-take-le : (n : ℕ) (xs : List ℕ) → length (take n xs) ≤ n
length-take-le zero xs = omega arith
length-take-le (suc n) [] = omega arith
length-take-le (suc n) (x ∷ xs) = omega (arith, length-take-le n xs)

chunks-short : (fuel : ℕ) (bytes : List ℕ) → All (λ c. length c ≤ 16384) (chunks fuel 16384 bytes)
unfolding chunks
chunks-short zero bytes = tt
chunks-short (suc fuel) [] = tt
chunks-short (suc fuel) (b ∷ bytes) =
    (omega (arith, length-take-le 16383 bytes), chunks-short fuel (drop 16383 bytes))

split-short : (bytes : List ℕ) → All (λ c. length c ≤ 16384) (split bytes)
unfolding split
split-short [] = (omega arith, tt)
split-short (b ∷ bytes) = chunks-short (length (b ∷ bytes)) (b ∷ bytes)

number-IsWire :
    (id kind layer pts count i : ℕ) (cs : List (List ℕ))
    → IsU32 id
    → kind ≤ 2
    → IsU64 pts
    → count ≤ 128
    → i + length cs ≤ count
    → All (λ c. length c ≤ 16384) cs
    → All IsWire (number id kind layer pts count i cs)
unfolding number
number-IsWire id kind layer pts count i [] u k p small fits short = tt
number-IsWire id kind layer pts count i (c ∷ cs) u k p small fits short = (
  record {
    frame_id_u32 = u;
    count_range = (omega arith, small);
    index_inside = omega arith;
    kind_known = k;
    pts_us_u64 = p;
    len_capped = short.0;
  },
  number-IsWire id kind layer pts count (i + 1) cs u k p small (omega arith) short.1,
)

-- Each fragment of a frame of up to 2 MiB is a payload that the wire's decoder accepts.
pub fragment_video-IsWire :
    (id kind layer pts : ℕ) (bytes : List ℕ)
    → IsU32 id
    → kind ≤ 2
    → IsU64 pts
    → length bytes ≤ 2097152
    → All IsWire (fragment_video id kind layer pts bytes)
unfolding fragment_video
fragment_video-IsWire id kind layer pts bytes u k p h =
    let (some_part, few) = length-split bytes h in
    number-IsWire id kind layer pts (length (split bytes) % 65536) 0 (split bytes) u k p
      (omega arith) (omega arith) (split-short bytes)
