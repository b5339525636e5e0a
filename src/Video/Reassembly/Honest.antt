-- ===== src/Video/Reassembly/Honest.antt =====
-- A frame that comes out is the frame that was sent, in whatever order its fragments arrive.
use remote.Prelude.{
  ℕ, zero, suc, ◌≤◌, ◌≡◌, ◌≢◌, refl, List, [], ◌∷◌, ◌++◌, Option, none, some, length, arith,
  get_elem?, set, replicate,
}
use remote.Video.Reassembly.{Partial, Outcome, flatten}

-- The fragments of a frame, put together.
abbrev pub joined : List (List ℕ) → List ℕ
joined [] = []
joined (c ∷ cs) = c ++ joined cs

-- Slots that hold, where they hold anything, the fragment of their index.
abbrev pub Matches : List (Option (List ℕ)) → List (List ℕ) → Type 0
Matches [] [] = Unit {0}
Matches [] (c ∷ cs) = ⊥
Matches (s ∷ slots) [] = ⊥
Matches (none ∷ slots) (c ∷ cs) = Matches slots cs
Matches (some d ∷ slots) (c ∷ cs) = (d ≡ c) × Matches slots cs

-- How many slots are filled.
abbrev pub count_filled : List (Option (List ℕ)) → ℕ
count_filled [] = 0
count_filled (none ∷ slots) = count_filled slots
count_filled (some d ∷ slots) = suc (count_filled slots)

-- A partial frame with no other bytes than those of the frame `cs`, stamped `pts`.
pub record IsHonest (cs : List (List ℕ)) (pts : ℕ) (p : Partial) : Type 0 where
  pub matches : Matches p.slots cs
  pub counted : p.filled ≡ count_filled p.slots
  pub stamped : p.pts_us ≡ pts

-- Nothing, or the whole frame.
abbrev pub IsRight : List (List ℕ) → Outcome → Type 0
IsRight cs Outcome.nothing = Unit {0}
IsRight cs (Outcome.frame f) = f.bytes ≡ joined cs
IsRight cs Outcome.panicked = ⊥

count_filled-le : (slots : List (Option (List ℕ))) → count_filled slots ≤ length slots
count_filled-le [] = omega arith
count_filled-le (none ∷ slots) = omega (arith, count_filled-le slots)
count_filled-le (some d ∷ slots) = omega (arith, count_filled-le slots)

pub Matches-length :
    (slots : List (Option (List ℕ))) (cs : List (List ℕ))
    → Matches slots cs
    → length slots ≡ length cs
Matches-length [] [] m = refl
Matches-length [] (c ∷ cs) m = absurd m
Matches-length (s ∷ slots) [] m = absurd m
Matches-length (none ∷ slots) (c ∷ cs) m = omega (arith, Matches-length slots cs m)
Matches-length (some d ∷ slots) (c ∷ cs) m = omega (arith, Matches-length slots cs m.1)

-- With every slot filled, the bytes are the frame's.
pub flatten-full :
    (slots : List (Option (List ℕ))) (cs : List (List ℕ))
    → Matches slots cs
    → count_filled slots ≡ length slots
    → flatten slots ≡ joined cs
flatten-full [] [] m e = refl
flatten-full [] (c ∷ cs) m e = absurd m
flatten-full (s ∷ slots) [] m e = absurd m
flatten-full (none ∷ slots) (c ∷ cs) m e = absurd (omega (arith, count_filled-le slots))
flatten-full (some d ∷ slots) (c ∷ cs) m e = rw (m.0, flatten-full slots cs m.1 (omega arith))

pub set-Matches :
    (slots : List (Option (List ℕ))) (cs : List (List ℕ)) (i : ℕ) (c : List ℕ)
    → Matches slots cs
    → get_elem? cs i ≡ some c
    → Matches (set slots i (some c)) cs
set-Matches [] [] i c m g = tt
set-Matches [] (d ∷ cs) i c m g = absurd m
set-Matches (s ∷ slots) [] i c m g = absurd m
set-Matches (none ∷ slots) (d ∷ cs) zero c m g = (cc, m)
set-Matches (some b ∷ slots) (d ∷ cs) zero c m g = (cc, m.1)
set-Matches (none ∷ slots) (d ∷ cs) (suc i) c m g = set-Matches slots cs i c m g
set-Matches (some b ∷ slots) (d ∷ cs) (suc i) c m g = (m.0, set-Matches slots cs i c m.1 g)

pub count_filled-set :
    (slots : List (Option (List ℕ))) (i : ℕ) (c : List ℕ)
    → get_elem? slots i ≡ some none
    → count_filled (set slots i (some c)) ≡ suc (count_filled slots)
count_filled-set [] i c g = absurd cc
count_filled-set (none ∷ slots) zero c g = refl
count_filled-set (some b ∷ slots) zero c g = absurd cc
count_filled-set (none ∷ slots) (suc i) c g = count_filled-set slots i c g
count_filled-set (some b ∷ slots) (suc i) c g = omega (arith, count_filled-set slots i c g)

-- An index of the frame is an index of its slots.
pub slot_inside :
    (slots : List (Option (List ℕ))) (cs : List (List ℕ)) (i : ℕ) (c : List ℕ)
    → Matches slots cs
    → get_elem? cs i ≡ some c
    → get_elem? slots i ≢ none
slot_inside [] [] i c m g h = cc
slot_inside [] (d ∷ cs) i c m g h = absurd m
slot_inside (s ∷ slots) [] i c m g h = absurd m
slot_inside (s ∷ slots) (d ∷ cs) zero c m g h = cc
slot_inside (none ∷ slots) (d ∷ cs) (suc i) c m g h = slot_inside slots cs i c m g h
slot_inside (some b ∷ slots) (d ∷ cs) (suc i) c m g h = slot_inside slots cs i c m.1 g h

pub replicate-Matches : (cs : List (List ℕ)) → Matches (replicate (length cs) none) cs
replicate-Matches [] = tt
replicate-Matches (c ∷ cs) = replicate-Matches cs

pub count_filled-replicate : (n : ℕ) → count_filled (replicate n none) ≡ 0
count_filled-replicate zero = refl
count_filled-replicate (suc n) = count_filled-replicate n
