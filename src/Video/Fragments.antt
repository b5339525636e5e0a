-- ===== src/Video/Fragments.antt =====
-- The fragments of a frame in order: their bytes, their number, and the slots they fill.
use remote.Prelude.{
  ℕ, zero, suc, ◌+◌, ◌-◌, ◌*◌, ◌≤◌, ◌<◌, ◌≡◌, refl, ap, List, [], ◌∷◌, ◌++◌, Option, none, some,
  length, take, drop, arith, get_elem?, set, replicate, length-replicate,
}
use remote.Proto.Fragment.{chunks, split}
use remote.Video.Reassembly.Honest.{
  joined, Matches, count_filled, replicate-Matches, count_filled-replicate,
}

take-drop : (n : ℕ) (xs : List ℕ) → take n xs ++ drop n xs ≡ xs
take-drop zero xs = refl
take-drop (suc n) [] = refl
take-drop (suc n) (x ∷ xs) = ap (◌∷◌ x) (take-drop n xs)

length-drop-le : (n : ℕ) (xs : List ℕ) → length (drop n xs) ≤ length xs
length-drop-le zero xs = omega arith
length-drop-le (suc n) [] = omega arith
length-drop-le (suc n) (x ∷ xs) = omega (arith, length-drop-le n xs)

joined-chunks :
    (fuel size : ℕ) (bytes : List ℕ)
    → length bytes ≤ fuel
    → joined (chunks fuel (suc size) bytes) ≡ bytes
unfolding chunks
joined-chunks zero size [] h = refl
joined-chunks zero size (b ∷ bytes) h = absurd (omega arith)
joined-chunks (suc fuel) size [] h = refl
joined-chunks (suc fuel) size (b ∷ bytes) h =
    rw (joined-chunks fuel size (drop size bytes) (omega (arith, length-drop-le size bytes)))
      (take-drop (suc size) (b ∷ bytes))

-- The fragments of a frame, put together, are the frame.
pub joined-split : (bytes : List ℕ) → joined (split bytes) ≡ bytes
unfolding split
joined-split [] = refl
joined-split (b ∷ bytes) = joined-chunks (length (b ∷ bytes)) 16383 (b ∷ bytes) (omega arith)

length-drop-eq : (n : ℕ) (xs : List ℕ) → length (drop n xs) ≡ length xs - n
length-drop-eq zero xs = omega arith
length-drop-eq (suc n) [] = omega arith
length-drop-eq (suc n) (x ∷ xs) = omega (arith, length-drop-eq n xs)

length-chunks :
    (fuel : ℕ) (bytes : List ℕ) → length (chunks fuel 16384 bytes) * 16384 < length bytes + 16384
unfolding chunks
length-chunks zero bytes = omega arith
length-chunks (suc fuel) [] = omega arith
length-chunks (suc fuel) (b ∷ bytes) =
    ground (arith, length-chunks fuel (drop 16383 bytes), length-drop-eq 16383 bytes)

-- A frame within the cap of 2 MiB has at most 128 fragments, and at least one.
pub length-split :
    (bytes : List ℕ)
    → length bytes ≤ 2097152
    → (1 ≤ length (split bytes)) × (length (split bytes) ≤ 128)
unfolding split chunks
length-split [] h = (omega arith, omega arith)
length-split (b ∷ bytes) h =
    (omega arith, omega (arith, length-chunks (suc (length bytes)) (b ∷ bytes)))

pub drop-cons :
    (k : ℕ) (cs rest : List (List ℕ)) (c : List ℕ)
    → drop k cs ≡ c ∷ rest
    → (get_elem? cs k ≡ some c) × (drop (suc k) cs ≡ rest) × (length cs ≡ k + suc (length rest))
drop-cons zero [] rest c h = absurd cc
drop-cons zero (d ∷ cs) rest c h =
    let tail : cs ≡ rest = cc in (cc, cc, omega (arith, ap length tail))
drop-cons (suc k) [] rest c h = absurd cc
drop-cons (suc k) (d ∷ cs) rest c h =
    let (at, next, size) = drop-cons k cs rest c h in (at, next, omega arith)

-- The slots after the first `k` fragments in order.
unfoldable pub filled_to : ℕ → List (List ℕ) → List (Option (List ℕ))
filled_to zero cs = replicate (length cs) none
filled_to (suc k) [] = []
filled_to (suc k) (c ∷ cs) = some c ∷ filled_to k cs

pub length-filled_to : (k : ℕ) (cs : List (List ℕ)) → length (filled_to k cs) ≡ length cs
unfolding filled_to
length-filled_to zero cs = length-replicate (length cs) none
length-filled_to (suc k) [] = refl
length-filled_to (suc k) (c ∷ cs) = omega (arith, length-filled_to k cs)

pub filled_to-vacant :
    (k : ℕ) (cs : List (List ℕ)) (c : List ℕ)
    → get_elem? cs k ≡ some c
    → get_elem? (filled_to k cs) k ≡ some none
unfolding filled_to
filled_to-vacant k [] c h = absurd cc
filled_to-vacant zero (d ∷ cs) c h = refl
filled_to-vacant (suc k) (d ∷ cs) c h = filled_to-vacant k cs c h

pub filled_to-set :
    (k : ℕ) (cs : List (List ℕ)) (c : List ℕ)
    → get_elem? cs k ≡ some c
    → set (filled_to k cs) k (some c) ≡ filled_to (suc k) cs
unfolding filled_to
filled_to-set k [] c h = absurd cc
filled_to-set zero (d ∷ cs) c h = cc
filled_to-set (suc k) (d ∷ cs) c h = ap (◌∷◌ (some d)) (filled_to-set k cs c h)

pub filled_to-Matches : (k : ℕ) (cs : List (List ℕ)) → Matches (filled_to k cs) cs
unfolding filled_to
filled_to-Matches zero cs = replicate-Matches cs
filled_to-Matches (suc k) [] = tt
filled_to-Matches (suc k) (c ∷ cs) = (refl, filled_to-Matches k cs)

pub count_filled-filled_to :
    (k : ℕ) (cs : List (List ℕ)) → k ≤ length cs → count_filled (filled_to k cs) ≡ k
unfolding filled_to
count_filled-filled_to zero cs h = count_filled-replicate (length cs)
count_filled-filled_to (suc k) [] h = absurd (omega arith)
count_filled-filled_to (suc k) (c ∷ cs) h = ap suc (count_filled-filled_to k cs (omega arith))
