-- ===== src/Input/KeyState/Valid.antt =====
-- The invariant of the held-key set, and that every operation keeps it.
use remote.Prelude.{
  ℕ, zero, suc, [], ◌∷◌, ◌&&◌, not, leb, ◌≤◌, List, length, arith, All, take, Bool-cases, inl, inr,
}
use remote.Input.Hid.{is_valid_keyboard_usage}
use remote.Input.KeySet.{
  contains, remove, filter, IsAscending, insert-IsAscending, remove-IsAscending,
  from_list-IsAscending, length-insert_new, length-insert_member, length-remove-le,
  length-from_list-le, insert-All, remove-All, from_list-All,
}
use remote.Input.KeyState.{
  suc, ◌∷◌, KeyState, press, release, reconcile, reconcile_modifiers, release_all, max_held_keys,
  target, remove_all,
}

-- A key of the keyboard page.
abbrev pub IsUsage : ℕ → Type 0
IsUsage u = (1 ≤ u) × (u ≤ 0xE7)

-- A set (strictly ascending), within the cap, of keyboard usages.
pub record IsValid (s : KeyState) : Type 0 where
  pub ascending : IsAscending s.held
  pub capped : length s.held ≤ max_held_keys
  pub usages : All IsUsage s.held

-- Pressing a usage that the caller has validated keeps the held keys an ascending set, within the
-- cap, of keyboard usages.
pub press-IsValid : (s : KeyState) (u : ℕ) → IsUsage u → IsValid s → IsValid (press s u).0
unfolding press
press-IsValid s u h v =
    elim (Bool-cases (leb max_held_keys (length s.held) && not (contains s.held u))) [
      | inl full ↦ rw (full, press) v
      | inr room ↦
          rw (room, press)
            (record {
              ascending = insert-IsAscending u s.held v.ascending;
              capped =
                  ground
                    (arith, length-insert_new u s.held, length-insert_member u s.held v.ascending);
              usages = insert-All IsUsage u s.held h v.usages;
            })
    ]

pub release-IsValid : (s : KeyState) (u : ℕ) → IsValid s → IsValid (release s u).0
unfolding release
release-IsValid s u v = record {
  ascending = remove-IsAscending u s.held v.ascending;
  capped = omega (arith, length-remove-le u s.held, v.capped);
  usages = remove-All IsUsage u s.held v.usages;
}

filter-All : (us : List ℕ) → All IsUsage (filter is_valid_keyboard_usage us)
unfolding filter
filter-All [] = tt
filter-All (u ∷ us) = elim (Bool-cases (is_valid_keyboard_usage u)) [
  | inl e ↦ rw e ((ground arith, ground arith), filter-All us)
  | inr e ↦ rw e (filter-All us)
]

take-All : (n : ℕ) (us : List ℕ) → All IsUsage us → All IsUsage (take n us)
take-All zero us a = tt
take-All (suc n) [] a = tt
take-All (suc n) (u ∷ us) a = (a.0, take-All n us a.1)

length-take-le : (n : ℕ) (us : List ℕ) → length (take n us) ≤ n
length-take-le zero us = omega arith
length-take-le (suc n) [] = omega arith
length-take-le (suc n) (u ∷ us) = omega (arith, length-take-le n us)

-- Whatever a KeyStateSync carries, the set that results is ascending, within the cap, and
-- holds keyboard usages only.
pub reconcile-IsValid :
    (s : KeyState) (authoritative : List ℕ) → IsValid (reconcile s authoritative).0
unfolding reconcile target
reconcile-IsValid s authoritative =
    let kept = filter is_valid_keyboard_usage authoritative in
    record {
      ascending = from_list-IsAscending (take 32 kept);
      capped = omega (arith, length-from_list-le (take 32 kept), length-take-le 32 kept);
      usages = from_list-All IsUsage _ (take-All 32 kept (filter-All authoritative));
    }

remove_all-IsValid :
    (held us : List ℕ)
    → IsValid (record { held = held })
    → IsValid (record { held = remove_all held us })
unfolding remove_all
remove_all-IsValid held [] v = v
remove_all-IsValid held (u ∷ us) v =
    remove_all-IsValid (remove u held) us
      (unfold release in release-IsValid (record { held = held }) u v)

pub reconcile_modifiers-IsValid :
    (s : KeyState) (ms : ℕ) → IsValid s → IsValid (reconcile_modifiers s ms).0
unfolding reconcile_modifiers
reconcile_modifiers-IsValid s ms v = remove_all-IsValid s.held _ v

pub release_all-IsValid : (s : KeyState) → IsValid (release_all s).0
unfolding release_all
release_all-IsValid s = record { ascending = tt; capped = omega arith; usages = tt }
