-- ===== src/Input/Injector/Actions.antt =====
-- The key actions of the reconciliations are on the allowlist.
use remote.Prelude.{ℕ, ◌≡◌, refl, List, [], ◌∷◌, ◌++◌, map, Bool, arith, All, Bool-cases, inl, inr}
use remote.Input.Hid.{modifier_usages}
use remote.Input.KeyAction.{KeyAction, usage}
use remote.Input.KeySet.{filter, difference}
use remote.Input.KeyState.{KeyState, reconcile, reconcile_modifiers, target, to_release}
use remote.Input.KeyState.Valid.{IsValid, IsUsage, reconcile-IsValid}

abbrev pub AllowedActions : List KeyAction → Type 0
AllowedActions acts = All (λ a. IsUsage (usage a)) acts

filter-All : (p : ℕ → Bool) (us : List ℕ) → All IsUsage us → All IsUsage (filter p us)
unfolding filter
filter-All p [] a = tt
filter-All p (u ∷ us) a = elim (Bool-cases (p u)) [
  | inl e ↦ rw e (a.0, filter-All p us a.1)
  | inr e ↦ rw e (filter-All p us a.1)
]

actions_of :
    (f : ℕ → KeyAction)
    → ((u : ℕ) → usage (f u) ≡ u)
    → (us : List ℕ) → All IsUsage us
    → AllowedActions (map f us)
actions_of f e [] a = tt
actions_of f e (u ∷ us) a = (rw (e u) a.0, actions_of f e us a.1)

actions_append :
    (a b : List KeyAction) → AllowedActions a → AllowedActions b → AllowedActions (a ++ b)
actions_append [] b h k = k
actions_append (x ∷ xs) b h k = (h.0, actions_append xs b h.1 k)

modifier_usages_allowed : All IsUsage modifier_usages
modifier_usages_allowed = omega arith

pub reconcile_modifiers_allowed :
    (k : KeyState) (ms : ℕ) → AllowedActions (reconcile_modifiers k ms).1
unfolding reconcile_modifiers
reconcile_modifiers_allowed k ms =
    actions_of KeyAction.release (λ u. refl) _
      (filter-All (to_release k.held ms) modifier_usages modifier_usages_allowed)

pub reconcile_allowed : (k : KeyState) (us : List ℕ) → IsValid k → AllowedActions (reconcile k us).1
unfolding reconcile difference
reconcile_allowed k us v =
    actions_append (map KeyAction.release (difference k.held (target us))) _
      (actions_of KeyAction.release (λ u. refl) _ (filter-All _ k.held v.usages))
      (actions_of KeyAction.press (λ u. refl) _
        (filter-All _ (target us) (reconcile-IsValid k us).usages))
