-- ===== src/Video/Jitter/Order.antt =====
-- The order of the queue, its bounds, and the order in which frames are played.
use remote.Prelude.{
  ℕ, zero, suc, ◌+◌, ◌≤◌, ◌≡◌, max, List, [], ◌∷◌, true, ◌&&◌, ltb, leb, length, arith, Bool-cases,
  inl, inr,
}
use remote.Video.Jitter.{
  Queued, raise, place, has_discardable, remove_discardable, rest_of, remove_victim, trim,
  is_discardable,
}
use remote.Video.Jitter.Playout.{catch_up, abandon_stale}

-- Frames from timestamp `pts` and deadline `due` on, neither ever falling.
abbrev pub IsChain : ℕ → ℕ → List Queued → Type 0
IsChain pts due [] = Unit {0}
IsChain pts due (x ∷ xs) =
    (pts ≤ x.frame.pts_us) × (due ≤ x.due_ms) × IsChain x.frame.pts_us x.due_ms xs

pub weaken-IsChain :
    (p d p' d' : ℕ) (q : List Queued) → p' ≤ p → d' ≤ d → IsChain p d q → IsChain p' d' q
weaken-IsChain p d p' d' [] h k c = tt
weaken-IsChain p d p' d' (x ∷ xs) h k c = (omega (arith, c.0), omega (arith, c.1), c.2)

raise-IsChain : (p d m : ℕ) (q : List Queued) → IsChain p d q → IsChain p m (raise m q)
unfolding raise
raise-IsChain p d m [] c = tt
raise-IsChain p d m (x ∷ xs) c =
    (c.0, omega arith, raise-IsChain x.frame.pts_us x.due_ms (max x.due_ms m) xs c.2)

pub place-IsChain :
    (p d : ℕ) (q : Queued) (xs : List Queued)
    → p ≤ q.frame.pts_us
    → IsChain p d xs
    → IsChain p d (place d q xs)
unfolding place
place-IsChain p d q [] h c = (h, omega arith, tt)
place-IsChain p d q (x ∷ xs) h c = elim (Bool-cases (ltb q.frame.pts_us x.frame.pts_us)) [
  | inl e ↦
      let above : IsChain q.frame.pts_us d (x ∷ xs) = (ground arith, c.1, c.2) in
      rw e (h, omega arith, raise-IsChain q.frame.pts_us d (max q.due_ms d) (x ∷ xs) above)
  | inr e ↦ rw e (c.0, c.1, place-IsChain x.frame.pts_us x.due_ms q xs (ground arith) c.2)
]

rest_of-IsChain : (p d : ℕ) (q : List Queued) → IsChain p d q → IsChain p d (rest_of q)
rest_of-IsChain p d [] c = tt
rest_of-IsChain p d (x ∷ xs) c = weaken-IsChain x.frame.pts_us x.due_ms p d xs c.0 c.1 c.2

remove_discardable-IsChain :
    (p d : ℕ) (q : List Queued) → IsChain p d q → IsChain p d (remove_discardable q)
unfolding remove_discardable
remove_discardable-IsChain p d [] c = tt
remove_discardable-IsChain p d (x ∷ xs) c = elim (Bool-cases (is_discardable x.frame)) [
  | inl e ↦ rw e (rest_of-IsChain p d (x ∷ xs) c)
  | inr e ↦ rw e (c.0, c.1, remove_discardable-IsChain x.frame.pts_us x.due_ms xs c.2)
]

remove_victim-IsChain : (p d : ℕ) (q : List Queued) → IsChain p d q → IsChain p d (remove_victim q)
unfolding remove_victim
remove_victim-IsChain p d q c = elim (Bool-cases (has_discardable q)) [
  | inl e ↦ rw (e, remove_victim) (remove_discardable-IsChain p d q c)
  | inr e ↦ rw (e, remove_victim) (rest_of-IsChain p d q c)
]

pub trim-IsChain : (n p d : ℕ) (q : List Queued) → IsChain p d q → IsChain p d (trim n q).0
unfolding trim
trim-IsChain zero p d q c = c
trim-IsChain (suc n) p d q c = elim (Bool-cases (ltb 120 (length q))) [
  | inl e ↦ rw e (trim-IsChain n p d (remove_victim q) (remove_victim-IsChain p d q c))
  | inr e ↦ rw e c
]

length-remove_discardable :
    (q : List Queued) → has_discardable q ≡ true → length (remove_discardable q) + 1 ≡ length q
unfolding remove_discardable has_discardable
length-remove_discardable [] h = absurd cc
length-remove_discardable (x ∷ xs) h = ground (arith, length-remove_discardable xs)

length-remove_victim : (q : List Queued) → 1 ≤ length q → length (remove_victim q) + 1 ≡ length q
unfolding remove_victim
length-remove_victim [] h = absurd (omega arith)
length-remove_victim (x ∷ xs) h = ground (arith, length-remove_discardable (x ∷ xs))

pub length-trim : (n : ℕ) (q : List Queued) → length q ≤ n + 120 → length (trim n q).0 ≤ 120
unfolding trim
length-trim zero q h = h
length-trim (suc n) q h = elim (Bool-cases (ltb 120 (length q))) [
  | inl e ↦
      let shorter : length (remove_victim q) + 1 ≡ length q =
        length-remove_victim q (ground arith) in
      rw e (length-trim n (remove_victim q) (omega arith))
  | inr e ↦ rw e (ground arith)
]

pub catch_up-IsChain :
    (now p d : ℕ) (q : List Queued) → IsChain p d q → IsChain p d (catch_up now q).0
unfolding catch_up
catch_up-IsChain now p d [] c = tt
catch_up-IsChain now p d (x ∷ []) c = c
catch_up-IsChain now p d (x ∷ y ∷ rest) c =
    elim (Bool-cases (ltb (x.due_ms + 100) now && leb y.due_ms now)) [
      | inl e ↦ rw e (catch_up-IsChain now p d (y ∷ rest) (rest_of-IsChain p d (x ∷ y ∷ rest) c))
      | inr e ↦ rw e c
    ]

pub length-catch_up : (now : ℕ) (q : List Queued) → length (catch_up now q).0 ≤ length q
unfolding catch_up
length-catch_up now [] = omega arith
length-catch_up now (x ∷ []) = omega arith
length-catch_up now (x ∷ y ∷ rest) = ground (arith, length-catch_up now (y ∷ rest))

pub abandon_stale-IsChain :
    (now p d : ℕ) (q : List Queued) → IsChain p d q → IsChain p d (abandon_stale now q).0
unfolding abandon_stale
abandon_stale-IsChain now p d [] c = tt
abandon_stale-IsChain now p d (x ∷ rest) c = elim (Bool-cases (ltb (x.due_ms + 500) now)) [
  | inl e ↦ rw e (rest_of-IsChain p d (x ∷ rest) c)
  | inr e ↦ rw e c
]

pub length-abandon_stale : (now : ℕ) (q : List Queued) → length (abandon_stale now q).0 ≤ length q
unfolding abandon_stale
length-abandon_stale now [] = omega arith
length-abandon_stale now (x ∷ rest) = ground arith
