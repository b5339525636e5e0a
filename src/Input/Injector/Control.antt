-- ===== src/Input/Injector/Control.antt =====
-- Handing control back to the local user, and what a refusing backend does to it.
use mathlib.Core.List.{Perm}
use mathlib.Core.List.Perm
use remote.Prelude.{
  Result, length, ◌==◌, true, Bool-cases, inl, inr, arith, ap, map, ℕ, ◌≡◌, refl, List, [], ◌∷◌,
  Bool, false, ok, err,
}
use remote.Input.Backend.{Backend, BackendError}
use remote.Input.KeyAction.{KeyAction, usage}
use remote.Input.KeyState.{release_all, is_empty}
use remote.Input.KeyState.Release.{IsOrdered, release_all_order}
use remote.Input.Injector.State.{Injector, LocalControl, call}
use remote.Input.Injector.Apply.{set_local_control, send_each, is_press}

module _ {B : Type 0} (api : Backend B) where
  -- The backend after the key calls for a list of actions.
  sent : List KeyAction → B → B
  sent [] b = b
  sent (a ∷ acts) b = sent acts (api.key b (usage a) (is_press a)).0

  -- The backend after it was told of each key, in order, that it is up.
  unfoldable pub released : List ℕ → B → B
  released [] b = b
  released (u ∷ us) b = released us (api.key b u false).0

  sent-release : (us : List ℕ) (b : B) → sent (map KeyAction.release us) b ≡ released us b
  unfolding sent released
  sent-release [] b = refl
  sent-release (u ∷ us) b = sent-release us (api.key b u false).0

  no_items : (us : List ℕ) → (length us == 0) ≡ true → us ≡ []
  no_items [] h = refl
  no_items (u ∷ us) h = absurd (ground arith)

  send_each_ok :
      ((b : B) (u : ℕ) (down : Bool) → (api.key b u down).1 ≡ ok tt)
      → (acts : List KeyAction) (s : Injector B)
      → send_each api acts s ≡ (record s { backend = sent acts s.backend }, ok tt)
  unfolding send_each sent call
  send_each_ok works [] s = refl
  send_each_ok works (a ∷ acts) s =
      rw (works s.backend (usage a) (is_press a)) (send_each_ok works acts _)

  -- On a backend whose key calls succeed, taking control tells it of each held key, once, plain keys
  -- before modifiers, that it is up, leaves no key recorded, and hands control to the local user.
  pub set_local_control_takes :
      ((b : B) (u : ℕ) (down : Bool) → (api.key b u down).1 ≡ ok tt)
      → (s : Injector B)
      → (us : List ℕ) × Perm us s.keys.held
        × IsOrdered us
        × (set_local_control api LocalControl.local_user s ≡ (
          record s {
            backend = released us s.backend;
            keys = record { held = [] };
            local_control = LocalControl.local_user;
          },
          ok tt,
        ))
  unfolding set_local_control released
  set_local_control_takes works s = elim (Bool-cases (is_empty s.keys)) [
    | inl none_held ↦
        let empty = no_items s.keys.held none_held in
        let after : List ℕ → Injector B × Result BackendError (Unit {0}) = λ us. (
          record s { keys = record { held = us }; local_control = LocalControl.local_user },
          ok tt,
        ) in
        ([], rw empty (Perm.refl []), tt, rw none_held (ap after empty))
    | inr some_held ↦
        let (us, acts, same, ordered, empty) = release_all_order s.keys in
        let keys : (release_all s.keys).0 ≡ record { held = [] } =
          ap (λ (us : List ℕ). record { held = us }) empty in
        (
          us,
          same,
          ordered,
          rw
              (
                some_held,
                keys,
                acts,
                send_each_ok works (map KeyAction.release us)
                    (record s { keys = record { held = [] } }),
                sent-release us s.backend,
              )
              refl,
        )
  ]

  -- If the first key call of the release fails, control is not taken: it stays with whom it was,
  -- while the record of the held keys is already empty.
  pub set_local_control_fails :
      (s : Injector B) (a : KeyAction) (acts : List KeyAction) (e : BackendError)
      → (release_all s.keys).1 ≡ a ∷ acts
      → (api.key s.backend (usage a) (is_press a)).1 ≡ err e
      → is_empty s.keys ≡ false
      → let t = set_local_control api LocalControl.local_user s in
        (t.1 ≡ err e) × (t.0.local_control ≡ s.local_control) × (t.0.keys.held ≡ [])
  unfolding set_local_control send_each call release_all
  set_local_control_fails s a acts e ha he hs = rw (hs, ha, he) (refl, refl, refl)
