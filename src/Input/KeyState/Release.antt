-- ===== src/Input/KeyState/Release.antt =====
-- `release_all`: every held key is released once, plain keys before modifiers.
use mathlib.Core.List.{Perm}
use mathlib.Core.List.Perm
use remote.Prelude.{
  ℕ, ◌≤◌, ◌<◌, ◌⊎◌, ◌≡◌, refl, List, [], ◌∷◌, map, true, false, arith, Bool-cases, inl, inr, All,
  ◌==◌, ◌||◌,
}
use remote.Input.KeyAction.{KeyAction}
use remote.Input.KeySet.{contains}
use remote.Input.KeyState.{KeyState, release_all, sort_in, sort_by_key, key_le}
use remote.Input.KeyState.Replay.{replay, replay-releases}

-- A modifier is one of the usages 0xE0 to 0xE7, a plain key is any other.
abbrev pub IsModifierKey : ℕ → Type 0
IsModifierKey u = (224 ≤ u) × (u ≤ 231)

abbrev pub IsPlainKey : ℕ → Type 0
IsPlainKey u = (u < 224) ⊎ (231 < u)

-- A plain key goes before a modifier, and of two of one class the lower usage first.
abbrev pub GoesBefore : ℕ → ℕ → Type 0
GoesBefore u v =
    (IsPlainKey u × IsModifierKey v)
    ⊎ ((IsPlainKey u × IsPlainKey v × (u ≤ v)) ⊎ (IsModifierKey u × IsModifierKey v × (u ≤ v)))

-- Each item before all that follow it.
abbrev pub IsOrdered : List ℕ → Type 0
IsOrdered [] = Unit {0}
IsOrdered (u ∷ us) = All (GoesBefore u) us × IsOrdered us

sort_in-perm : (u : ℕ) (us : List ℕ) → Perm (sort_in u us) (u ∷ us)
unfolding sort_in
sort_in-perm u [] = Perm.refl _
sort_in-perm u (v ∷ vs) = elim (Bool-cases (key_le u v)) [
  | inl e ↦ rw e (Perm.refl _)
  | inr e ↦ rw e (Perm.trans (Perm.cons v (sort_in-perm u vs)) (Perm.swap u v vs))
]

sort_by_key-perm : (us : List ℕ) → Perm (sort_by_key us) us
unfolding sort_by_key
sort_by_key-perm [] = Perm.refl _
sort_by_key-perm (u ∷ us) =
    Perm.trans (sort_in-perm u (sort_by_key us)) (Perm.cons u (sort_by_key-perm us))

key_le-GoesBefore : (u v : ℕ) → key_le u v ≡ true → GoesBefore u v
key_le-GoesBefore u v h = ground arith

key_le_total : (u v : ℕ) → key_le u v ≡ false → GoesBefore v u
key_le_total u v h = ground arith

GoesBefore-trans : (u v w : ℕ) → GoesBefore u v → GoesBefore v w → GoesBefore u w
GoesBefore-trans u v w h k = grind arith

All-weaken :
    (u v : ℕ) (vs : List ℕ) → GoesBefore u v → All (GoesBefore v) vs → All (GoesBefore u) vs
All-weaken u v [] h a = tt
All-weaken u v (w ∷ ws) h a = (GoesBefore-trans u v w h a.0, All-weaken u v ws h a.1)

sort_in-All :
    (x u : ℕ) (us : List ℕ)
    → GoesBefore x u
    → All (GoesBefore x) us
    → All (GoesBefore x) (sort_in u us)
unfolding sort_in
sort_in-All x u [] h a = (h, tt)
sort_in-All x u (v ∷ vs) h a = elim (Bool-cases (key_le u v)) [
  | inl e ↦ rw e (h, a)
  | inr e ↦ rw e (a.0, sort_in-All x u vs h a.1)
]

sort_in-IsOrdered : (u : ℕ) (us : List ℕ) → IsOrdered us → IsOrdered (sort_in u us)
unfolding sort_in
sort_in-IsOrdered u [] o = (tt, tt)
sort_in-IsOrdered u (v ∷ vs) o = elim (Bool-cases (key_le u v)) [
  | inl e ↦ rw e ((key_le-GoesBefore u v e, All-weaken u v vs (key_le-GoesBefore u v e) o.0), o)
  | inr e ↦ rw e (sort_in-All v u vs (key_le_total u v e) o.0, sort_in-IsOrdered u vs o.1)
]

sort_by_key-IsOrdered : (us : List ℕ) → IsOrdered (sort_by_key us)
unfolding sort_by_key
sort_by_key-IsOrdered [] = tt
sort_by_key-IsOrdered (u ∷ us) = sort_in-IsOrdered u (sort_by_key us) (sort_by_key-IsOrdered us)

-- The actions of `release_all` release the held keys, each once, plain keys before modifiers and
-- the lower usage first within each class; and the state is empty.
pub release_all_order :
    (s : KeyState)
    → (us : List ℕ) × ((release_all s).1 ≡ map KeyAction.release us)
      × Perm us s.held
      × IsOrdered us
      × ((release_all s).0.held ≡ [])
unfolding release_all
release_all_order s =
    (sort_by_key s.held, refl, sort_by_key-perm s.held, sort_by_key-IsOrdered s.held, refl)

contains-sort_in :
    (u : ℕ) (us : List ℕ) (v : ℕ) → contains (sort_in u us) v ≡ (u == v || contains us v)
unfolding contains sort_in
contains-sort_in u [] v = refl
contains-sort_in u (w ∷ ws) v = ground (arith, contains-sort_in u ws v)

contains-sort_by_key : (us : List ℕ) (v : ℕ) → contains (sort_by_key us) v ≡ contains us v
unfolding contains sort_by_key
contains-sort_by_key [] v = refl
contains-sort_by_key (u ∷ us) v =
    ground (arith, contains-sort_in u (sort_by_key us) v, contains-sort_by_key us v)

-- The actions of `release_all`, replayed on a system that holds down the recorded keys, leave no key
-- down.
pub release_all_clears :
    (s : KeyState) (v : ℕ) → replay (contains s.held) (release_all s).1 v ≡ false
unfolding release_all
release_all_clears s v =
    rw (replay-releases (contains s.held) (sort_by_key s.held) v, contains-sort_by_key s.held v)
      (ground arith)
