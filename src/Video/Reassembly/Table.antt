-- ===== src/Video/Reassembly/Table.antt =====
-- Maps keyed by frame ids, as lists of entries.
use remote.Prelude.{
  ℕ, ◌+◌, ◌≤◌, ◌≡◌, ◌≢◌, refl, List, [], ◌∷◌, Option, none, some, if◌then◌else◌, ltb, ◌==◌, length,
  arith,
}

module _ {A : Type 0} where
  unfoldable pub find : ℕ → List (ℕ × A) → Option A
  find k [] = none
  find k ((j, a) ∷ rest) = let more = find k rest in if j == k then some a else more

  unfoldable pub remove : ℕ → List (ℕ × A) → List (ℕ × A)
  remove k [] = []
  remove k ((j, a) ∷ rest) = let more = remove k rest in if j == k then more else (j, a) ∷ more

  -- A key that is not there yet, in its place.
  unfoldable pub add : ℕ → A → List (ℕ × A) → List (ℕ × A)
  add k a [] = (k, a) ∷ []
  add k a ((j, b) ∷ rest) =
      let more = add k a rest in if ltb k j then (k, a) ∷ (j, b) ∷ rest else (j, b) ∷ more

  -- A key that is there.
  unfoldable pub replace : ℕ → A → List (ℕ × A) → List (ℕ × A)
  replace k a [] = []
  replace k a ((j, b) ∷ rest) =
      let more = replace k a rest in if j == k then (k, a) ∷ rest else (j, b) ∷ more

  pub length-remove-le : (k : ℕ) (t : List (ℕ × A)) → length (remove k t) ≤ length t
  unfolding remove
  length-remove-le k [] = omega arith
  length-remove-le k ((j, a) ∷ rest) = ground (arith, length-remove-le k rest)

  pub length-remove_found :
      (k : ℕ) (a : A) (t : List (ℕ × A)) → find k t ≡ some a → length (remove k t) + 1 ≤ length t
  unfolding remove find
  length-remove_found k a [] h = absurd cc
  length-remove_found k a ((j, b) ∷ rest) h =
      ground (arith, length-remove-le k rest, length-remove_found k a rest)

  pub length-add : (k : ℕ) (a : A) (t : List (ℕ × A)) → length (add k a t) ≡ length t + 1
  unfolding add
  length-add k a [] = refl
  length-add k a ((j, b) ∷ rest) = ground (arith, length-add k a rest)

  pub length-replace : (k : ℕ) (a : A) (t : List (ℕ × A)) → length (replace k a t) ≡ length t
  unfolding replace
  length-replace k a [] = refl
  length-replace k a ((j, b) ∷ rest) = ground (arith, length-replace k a rest)

  pub find-remove_same : (k : ℕ) (t : List (ℕ × A)) → find k (remove k t) ≡ none
  unfolding find remove
  find-remove_same k [] = refl
  find-remove_same k ((j, a) ∷ rest) = ground (arith, find-remove_same k rest)

  pub find-remove_other : (k i : ℕ) (t : List (ℕ × A)) → i ≢ k → find i (remove k t) ≡ find i t
  unfolding find remove
  find-remove_other k i [] n = refl
  find-remove_other k i ((j, a) ∷ rest) n = ground (arith, find-remove_other k i rest n)

  pub find-add_same :
      (k : ℕ) (a : A) (t : List (ℕ × A)) → find k t ≡ none → find k (add k a t) ≡ some a
  unfolding find add
  find-add_same k a [] h = ground arith
  find-add_same k a ((j, b) ∷ rest) h = ground (arith, find-add_same k a rest)

  pub find-add_other : (k i : ℕ) (a : A) (t : List (ℕ × A)) → i ≢ k → find i (add k a t) ≡ find i t
  unfolding find add
  find-add_other k i a [] n = ground arith
  find-add_other k i a ((j, b) ∷ rest) n = ground (arith, find-add_other k i a rest n)

  pub find-replace_same :
      (k : ℕ) (a b : A) (t : List (ℕ × A)) → find k t ≡ some b → find k (replace k a t) ≡ some a
  unfolding find replace
  find-replace_same k a b [] h = absurd cc
  find-replace_same k a b ((j, c) ∷ rest) h = ground (arith, find-replace_same k a b rest)

  pub find-replace_other :
      (k i : ℕ) (a : A) (t : List (ℕ × A)) → i ≢ k → find i (replace k a t) ≡ find i t
  unfolding find replace
  find-replace_other k i a [] n = refl
  find-replace_other k i a ((j, c) ∷ rest) n = ground (arith, find-replace_other k i a rest n)
