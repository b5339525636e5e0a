-- ===== src/Signal/Registry/Table.antt =====
-- Maps keyed by texts, as lists of entries.
use text.Mathlib.Text.{◌==◌ as str_eq}
use text.Mathlib.TextEquality.{eq_iff}
use remote.Prelude.{
  ◌≡◌, ◌≢◌, refl, sym, ◌∙◌, List, [], ◌∷◌, true, false, String, Option, none, some, if◌then◌else◌,
  Bool-cases, inl, inr,
}

module _ {A : Type 0} where
  unfoldable pub find : String → List (String × A) → Option A
  find k [] = none
  find k ((j, a) ∷ rest) = let more = find k rest in if str_eq j k then some a else more

  unfoldable pub remove : String → List (String × A) → List (String × A)
  remove k [] = []
  remove k ((j, a) ∷ rest) = let more = remove k rest in if str_eq j k then more else (j, a) ∷ more

  unfoldable pub insert : String → A → List (String × A) → List (String × A)
  insert k a rest = (k, a) ∷ remove k rest

pub str_eq_refl : (k : String) → str_eq k k ≡ true
str_eq_refl k = (eq_iff k k).1 refl

pub str_eq→≡ : (j k : String) → str_eq j k ≡ true → j ≡ k
str_eq→≡ j k h = (eq_iff j k).0 h

pub str_neq : (j k : String) → j ≢ k → str_eq j k ≡ false
str_neq j k n = elim (Bool-cases (str_eq j k)) [ inl e ↦ absurd (n (str_eq→≡ j k e)) | inr e ↦ e ]

pub find-remove_same :
    {A : Type 0} (k : String) (t : List (String × A)) → find k (remove k t) ≡ none
unfolding find remove
find-remove_same k [] = refl
find-remove_same k ((j, a) ∷ rest) = elim (Bool-cases (str_eq j k)) [
  | inl e ↦ rw e (find-remove_same k rest)
  | inr e ↦ rw (e, e) (find-remove_same k rest)
]

pub find-remove_other :
    {A : Type 0} (k i : String) (t : List (String × A)) → i ≢ k → find i (remove k t) ≡ find i t
unfolding find remove
find-remove_other k i [] n = refl
find-remove_other k i ((j, a) ∷ rest) n = elim (Bool-cases (str_eq j k)) [
  | inl e ↦ rw (e, str_neq j i (λ p. n (sym p ∙ str_eq→≡ j k e))) (find-remove_other k i rest n)
  | inr e ↦ rw (e, find-remove_other k i rest n)
]

pub find-insert_same :
    {A : Type 0} (k : String) (a : A) (t : List (String × A)) → find k (insert k a t) ≡ some a
unfolding find insert
find-insert_same k a t = rw (str_eq_refl k)

pub find-insert_other :
    {A : Type 0} (k i : String) (a : A) (t : List (String × A))
    → i ≢ k
    → find i (insert k a t) ≡ find i t
unfolding find insert
find-insert_other k i a t n = rw (str_neq k i (λ p. n (sym p))) (find-remove_other k i t n)
