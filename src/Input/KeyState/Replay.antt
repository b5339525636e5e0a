-- ===== src/Input/KeyState/Replay.antt =====
-- What a list of key actions does to the keys that the operating system holds down.
use remote.Prelude.{ℕ, ◌≡◌, refl, List, [], ◌∷◌, ◌++◌, map, Bool, ◌&&◌, ◌||◌, not, ◌==◌, arith}
use remote.Input.KeyAction.{KeyAction, press, release}
use remote.Input.KeySet.{contains}

-- Which keys are down, after the actions in order.
pub replay : (ℕ → Bool) → List KeyAction → ℕ → Bool
replay down [] = down
replay down (press u ∷ acts) = replay (λ v. u == v || down v) acts
replay down (release u ∷ acts) = replay (λ v. not (u == v) && down v) acts

pub replay-append :
    (down : ℕ → Bool) (acts more : List KeyAction)
    → replay down (acts ++ more) ≡ replay (replay down acts) more
unfolding replay
replay-append down [] more = refl
replay-append down (press u ∷ acts) more = replay-append (λ v. u == v || down v) acts more
replay-append down (release u ∷ acts) more = replay-append (λ v. not (u == v) && down v) acts more

pub replay-releases :
    (down : ℕ → Bool) (us : List ℕ) (v : ℕ)
    → replay down (map release us) v ≡ (not (contains us v) && down v)
unfolding replay contains
replay-releases down [] v = refl
replay-releases down (u ∷ us) v = ground (arith, replay-releases (λ w. not (u == w) && down w) us v)

pub replay-presses :
    (down : ℕ → Bool) (us : List ℕ) (v : ℕ)
    → replay down (map press us) v ≡ (contains us v || down v)
unfolding replay contains
replay-presses down [] v = refl
replay-presses down (u ∷ us) v = ground (arith, replay-presses (λ w. u == w || down w) us v)
