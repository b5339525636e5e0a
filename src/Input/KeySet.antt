-- ===== src/Input/KeySet.antt =====
-- A BTreeSet<u16>: a strictly ascending list. What state.rs uses of it, with its laws.
use remote.Prelude.{
  ==_iff, sym, subst, ℕ, ◌+◌, ◌≤◌, ◌<◌, ◌≡◌, refl, List, [], ◌∷◌, ◌++◌, Bool, true, false, ◌&&◌,
  ◌||◌, not, ltb, ◌==◌, if◌then◌else◌, length, arith, All, Bool-cases, inl, inr,
}

unfoldable pub contains : List ℕ → ℕ → Bool
contains [] u = false
contains (x ∷ xs) u = x == u || contains xs u

unfoldable pub insert : ℕ → List ℕ → List ℕ
insert u [] = u ∷ []
insert u (x ∷ xs) =
    let rest = insert u xs in if ltb u x then u ∷ x ∷ xs else if u == x then x ∷ xs else x ∷ rest

unfoldable pub remove : ℕ → List ℕ → List ℕ
remove u [] = []
remove u (x ∷ xs) = let rest = remove u xs in if x == u then rest else x ∷ rest

unfoldable pub filter : (ℕ → Bool) → List ℕ → List ℕ
filter p [] = []
filter p (x ∷ xs) = let rest = filter p xs in if p x then x ∷ rest else rest

-- `.collect()` into a set; the order of insertion does not show in the result.
unfoldable pub from_list : List ℕ → List ℕ
from_list [] = []
from_list (x ∷ xs) = insert x (from_list xs)

unfoldable pub difference : List ℕ → List ℕ → List ℕ
difference xs ys = filter (λ x. not (contains ys x)) xs

-- Every item is above `n`, and they ascend.
abbrev pub Above : ℕ → List ℕ → Type 0
Above n [] = Unit {0}
Above n (x ∷ xs) = (n < x) × Above x xs

abbrev pub IsAscending : List ℕ → Type 0
IsAscending [] = Unit {0}
IsAscending (x ∷ xs) = Above x xs

pub contains-insert :
    (u : ℕ) (xs : List ℕ) (v : ℕ) → contains (insert u xs) v ≡ (u == v || contains xs v)
unfolding contains insert
contains-insert u [] v = refl
contains-insert u (x ∷ xs) v = ground (arith, contains-insert u xs v)

pub contains-remove :
    (u : ℕ) (xs : List ℕ) (v : ℕ) → contains (remove u xs) v ≡ (not (u == v) && contains xs v)
unfolding contains remove
contains-remove u [] v = ground arith
contains-remove u (x ∷ xs) v = ground (arith, contains-remove u xs v)

-- Membership in a filtered set, for a test that sees a key only through its value.
pub contains-filter :
    (p : ℕ → Bool) (xs : List ℕ) (v : ℕ) → contains (filter p xs) v ≡ (p v && contains xs v)
unfolding contains filter
contains-filter p [] v = ground arith
contains-filter p (x ∷ xs) v = elim (Bool-cases (x == v)) [
  | inl e ↦
      subst (λ z. contains (filter p (z ∷ xs)) v ≡ (p v && contains (z ∷ xs) v))
        (sym ((==_iff x v).0 e)) (ground (arith, contains-filter p xs v))
  | inr e ↦ ground (arith, contains-filter p xs v)
]

pub contains-append :
    (xs ys : List ℕ) (v : ℕ) → contains (xs ++ ys) v ≡ (contains xs v || contains ys v)
unfolding contains
contains-append [] ys v = refl
contains-append (x ∷ xs) ys v = ground (arith, contains-append xs ys v)

pub contains-from_list : (xs : List ℕ) (v : ℕ) → contains (from_list xs) v ≡ contains xs v
unfolding contains from_list
contains-from_list [] v = refl
contains-from_list (x ∷ xs) v =
    ground (arith, contains-insert x (from_list xs) v, contains-from_list xs v)

Above-weaken : {m n : ℕ} (xs : List ℕ) → m ≤ n → Above n xs → Above m xs
Above-weaken [] h a = tt
Above-weaken (x ∷ xs) h a = (omega arith, a.1)

Above-IsAscending : (n : ℕ) (xs : List ℕ) → Above n xs → IsAscending xs
Above-IsAscending n [] a = tt
Above-IsAscending n (x ∷ xs) a = a.1

insert-Above : (u n : ℕ) (xs : List ℕ) → n < u → Above n xs → Above n (insert u xs)
unfolding insert
insert-Above u n [] h a = (h, tt)
insert-Above u n (x ∷ xs) h a = ground (arith, insert-Above u x xs)

pub insert-IsAscending : (u : ℕ) (xs : List ℕ) → IsAscending xs → IsAscending (insert u xs)
unfolding insert
insert-IsAscending u [] a = tt
insert-IsAscending u (x ∷ xs) a = ground (arith, insert-Above u x xs)

remove-Above : (u n : ℕ) (xs : List ℕ) → Above n xs → Above n (remove u xs)
unfolding remove
remove-Above u n [] a = tt
remove-Above u n (x ∷ xs) a =
    ground (arith, remove-Above u x xs a.1, Above-weaken {m = n} {n = x} (remove u xs))

pub remove-IsAscending : (u : ℕ) (xs : List ℕ) → IsAscending xs → IsAscending (remove u xs)
unfolding remove
remove-IsAscending u [] a = tt
remove-IsAscending u (x ∷ xs) a =
    ground (arith, remove-Above u x xs a, Above-IsAscending x (remove u xs))

pub from_list-IsAscending : (xs : List ℕ) → IsAscending (from_list xs)
unfolding from_list
from_list-IsAscending [] = tt
from_list-IsAscending (x ∷ xs) = insert-IsAscending x (from_list xs) (from_list-IsAscending xs)

pub length-insert_new : (u : ℕ) (xs : List ℕ) → length (insert u xs) ≤ length xs + 1
unfolding insert
length-insert_new u [] = omega arith
length-insert_new u (x ∷ xs) = ground (arith, length-insert_new u xs)

-- In an ascending list what lies below the head is not a member, so a member is not inserted twice.
Above-not_member : (n : ℕ) (xs : List ℕ) (u : ℕ) → Above n xs → u ≤ n → contains xs u ≡ false
unfolding contains
Above-not_member n [] u a h = refl
Above-not_member n (x ∷ xs) u a h = ground (arith, Above-not_member x xs u a.1)

insert_member-Above :
    (u n : ℕ) (xs : List ℕ) → Above n xs → contains xs u ≡ true → length (insert u xs) ≡ length xs
unfolding contains insert
insert_member-Above u n [] a h = cc
insert_member-Above u n (x ∷ xs) a h =
    ground (arith, insert_member-Above u x xs a.1, Above-not_member x xs u a.1)

pub length-insert_member :
    (u : ℕ) (xs : List ℕ) → IsAscending xs → contains xs u ≡ true → length (insert u xs) ≡ length xs
unfolding contains insert
length-insert_member u [] a h = cc
length-insert_member u (x ∷ xs) a h =
    ground (arith, insert_member-Above u x xs a, Above-not_member x xs u a)

pub length-remove-le : (u : ℕ) (xs : List ℕ) → length (remove u xs) ≤ length xs
unfolding remove
length-remove-le u [] = omega arith
length-remove-le u (x ∷ xs) = ground (arith, length-remove-le u xs)

pub length-from_list-le : (xs : List ℕ) → length (from_list xs) ≤ length xs
unfolding from_list
length-from_list-le [] = omega arith
length-from_list-le (x ∷ xs) =
    omega (arith, length-insert_new x (from_list xs), length-from_list-le xs)

pub insert-All {ℓ} : (P : ℕ → Type ℓ) (u : ℕ) (xs : List ℕ) → P u → All P xs → All P (insert u xs)
unfolding insert
insert-All P u [] h a = (h, a)
insert-All P u (x ∷ xs) h a = elim (Bool-cases (ltb u x)) [
  | inl e ↦ rw e (h, a)
  | inr e ↦ elim (Bool-cases (u == x)) [
    | inl f ↦ rw (e, f) a
    | inr f ↦ rw (e, f) (a.0, insert-All P u xs h a.1)
  ]
]

pub remove-All {ℓ} : (P : ℕ → Type ℓ) (u : ℕ) (xs : List ℕ) → All P xs → All P (remove u xs)
unfolding remove
remove-All P u [] a = a
remove-All P u (x ∷ xs) a = elim (Bool-cases (x == u)) [
  | inl e ↦ rw e (remove-All P u xs a.1)
  | inr e ↦ rw e (a.0, remove-All P u xs a.1)
]

pub from_list-All {ℓ} : (P : ℕ → Type ℓ) (xs : List ℕ) → All P xs → All P (from_list xs)
unfolding from_list
from_list-All P [] a = a
from_list-All P (x ∷ xs) a = insert-All P x (from_list xs) a.0 (from_list-All P xs a.1)
