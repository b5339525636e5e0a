-- ===== src/Input/Injector/Allowlist.antt =====
-- Only usages of the allowlist reach the backend, through every path of `apply`.
use remote.Prelude.{
  ℕ, ◌≡◌, refl, List, [], ◌∷◌, Bool, true, false, arith, Bool-cases, inl, inr, if◌then◌else◌, not,
  ◌||◌, ◌==◌,
}
use remote.Prelude.Int.{ℤ}
use remote.Proto.Payload.{Payload, MouseButtonId}
use remote.Input.Backend.{Backend}
use remote.Input.Display.{denormalise}
use remote.Input.Grant.{GuardError, SessionGrant, EventClass, permits}
use remote.Input.Hid.{is_valid_keyboard_usage, lookup, page_keyboard}
use remote.Input.KeyAction.{KeyAction, usage}
use remote.Input.KeyState.{reconcile, reconcile_modifiers}
use remote.Input.KeyState.Valid.{
  IsValid, IsUsage, press-IsValid, release-IsValid, reconcile-IsValid, reconcile_modifiers-IsValid,
}
use remote.Input.Injector.State.{
  Injector, LocalControl, M, ◌>>◌, require_input, count_injected, rate_ok, display, call, pure,
  fail,
}
use remote.Input.Injector.Actions.{AllowedActions, reconcile_modifiers_allowed, reconcile_allowed}
use remote.Input.Injector.Keeps.{
  IsClosed, IsGood, Keeps, Keeps-bind, Keeps-then, Keeps-require, Keeps-rate, Keeps-display,
  Keeps-call, Keeps-count,
}
use remote.Input.Injector.Apply.{
  apply, dispatch, mouse_move, mouse_move_relative, mouse_button, mouse_wheel, key_event,
  key_state_sync, text_input, sync_modifiers, release_each, apply_each, track, check_policy,
  reconcile_keys, is_unmapped, is_not_up, is_down, map_button, invalid, is_press,
}

module _ {B : Type 0} (api : Backend B) (P : B → Type 0) (closed : IsClosed api P) where
  release_each-IsGood :
      (acts : List KeyAction) (s : Injector B)
      → AllowedActions acts
      → IsGood P s
      → IsGood P (release_each api acts s)
  unfolding release_each
  release_each-IsGood [] s a g = g
  release_each-IsGood (x ∷ acts) s a g =
      release_each-IsGood acts _ a.1
        (record { backend = closed.key s.backend (usage x) false a.0 g.backend; keys = g.keys })

  Keeps-sync : (ms : ℕ) → Keeps P (sync_modifiers api ms)
  unfolding sync_modifiers
  Keeps-sync ms s g =
      release_each-IsGood (reconcile_modifiers s.keys ms).1 _
        (reconcile_modifiers_allowed s.keys ms)
        (record { backend = g.backend; keys = reconcile_modifiers-IsValid s.keys ms g.keys })

  Keeps-apply_each : (acts : List KeyAction) → AllowedActions acts → Keeps P (apply_each api acts)
  unfolding apply_each
  Keeps-apply_each [] a s g = g
  Keeps-apply_each (x ∷ acts) a s g =
      let ask = λ (b : B). api.key b (usage x) (is_press x) in
      let send : Keeps P (call (invalid "usage_id") ask >> apply_each api acts) =
        Keeps-then P (call (invalid "usage_id") ask) (apply_each api acts)
          (Keeps-call P (invalid "usage_id") ask (λ b. closed.key b (usage x) (is_press x) a.0))
          (Keeps-apply_each acts a.1) in
      send _ (record { backend = g.backend; keys = g.keys })

  Keeps-reconcile : (pressed : List ℕ) → Keeps P (reconcile_keys api pressed)
  unfolding reconcile_keys
  Keeps-reconcile pressed s g =
      Keeps-apply_each (reconcile s.keys pressed).1 (reconcile_allowed s.keys pressed g.keys) _
        (record { backend = g.backend; keys = reconcile-IsValid s.keys pressed })

  Keeps-policy : (ms u : ℕ) → Keeps P (check_policy api ms u)
  unfolding check_policy
  Keeps-policy ms u s g = elim (Bool-cases (permits s.policy ms u)) [
    | inl e ↦ rw (e, check_policy) g
    | inr e ↦ rw (e, check_policy) (record { backend = g.backend; keys = g.keys })
  ]

  Keeps-track : (u : ℕ) (down : Bool) → IsUsage u → Keeps P (track api u down)
  unfolding track
  Keeps-track u true h s g = record { backend = g.backend; keys = press-IsValid s.keys u h g.keys }
  Keeps-track u false h s g = record { backend = g.backend; keys = release-IsValid s.keys u g.keys }

  -- The two checks that every arm begins with.
  Keeps-admitted :
      (grant : SessionGrant) (class : EventClass) (now : ℕ) (k : M B GuardError (Unit {0}))
      → Keeps P k
      → Keeps P (require_input grant >> (rate_ok class now >> k))
  Keeps-admitted grant class now k h =
      Keeps-then P (require_input grant) _ (Keeps-require P grant)
        (Keeps-then P (rate_ok class now) k (Keeps-rate P class now) h)

  Keeps-unless :
      (b : Bool) (e : GuardError) (k : M B GuardError (Unit {0}))
      → (b ≡ false → Keeps P k)
      → Keeps P ((if b then fail e else pure tt) >> k)
  Keeps-unless true e k h s g = g
  Keeps-unless false e k h s g = h refl s g

  Keeps-when :
      (b : Bool) (e : GuardError) (k : M B GuardError (Unit {0}))
      → Keeps P k
      → Keeps P ((if b then pure tt else fail e) >> k)
  Keeps-when true e k h s g = h s g
  Keeps-when false e k h s g = g

  Keeps-mouse_move :
      (grant : SessionGrant) (now d x y m : ℕ) → Keeps P (mouse_move api grant now d x y m)
  unfolding mouse_move
  Keeps-mouse_move grant now d x y m = Keeps-admitted grant EventClass.pointer now _ (
      Keeps-bind P (display d) _ (Keeps-display P d) λ geom.
        Keeps-then P (sync_modifiers api m) _ (Keeps-sync m) (
          Keeps-call P (invalid "pointer") _
            (λ b. closed.pointer_absolute b (denormalise geom x y).0 (denormalise geom x y).1)))

  Keeps-mouse_move_relative :
      (grant : SessionGrant) (now : ℕ) (dx dy : ℤ) (m : ℕ)
      → Keeps P (mouse_move_relative api grant now dx dy m)
  unfolding mouse_move_relative
  Keeps-mouse_move_relative grant now dx dy m = Keeps-admitted grant EventClass.pointer now _ (
      Keeps-then P (sync_modifiers api m) _ (Keeps-sync m)
        (Keeps-call P (invalid "delta") _ (λ b. closed.pointer_relative b dx dy)))

  Keeps-mouse_button :
      (grant : SessionGrant) (now : ℕ) (id : MouseButtonId) (down : Bool) (x y m d : ℕ)
      → Keeps P (mouse_button api grant now id down x y m d)
  unfolding mouse_button
  Keeps-mouse_button grant now id down x y m d = Keeps-admitted grant EventClass.key now _ (
      Keeps-bind P (display d) _ (Keeps-display P d) λ geom.
        Keeps-then P (sync_modifiers api m) _ (Keeps-sync m) (
          Keeps-then P (call (invalid "pointer") _) _
            (Keeps-call P (invalid "pointer") _
              (λ b. closed.pointer_absolute b (denormalise geom x y).0 (denormalise geom x y).1))
            (Keeps-call P (invalid "button") _ (λ b. closed.button b (map_button id) down))))

  Keeps-mouse_wheel :
      (grant : SessionGrant) (now : ℕ) (v h : ℤ) (m : ℕ) → Keeps P (mouse_wheel api grant now v h m)
  unfolding mouse_wheel
  Keeps-mouse_wheel grant now v h m = Keeps-admitted grant EventClass.key now _ (
      Keeps-then P (sync_modifiers api m) _ (Keeps-sync m) (
        Keeps-call P (invalid "scroll") _
          (λ b. closed.scroll b (record { vertical = v; horizontal = h }))))

  Keeps-key_event :
      (grant : SessionGrant) (now page u : ℕ) (down : Bool) (m : ℕ)
      → Keeps P (key_event api grant now page u down m)
  unfolding key_event
  Keeps-key_event grant now page u down m = Keeps-admitted grant EventClass.key now _ (
      Keeps-when (page == page_keyboard) GuardError.disallowed_usage _ (
        Keeps-unless (not (is_valid_keyboard_usage u) || is_unmapped (lookup u))
          GuardError.disallowed_usage _
          λ valid.
            let allowed : IsUsage u = (ground arith, ground arith) in
            Keeps-then P (check_policy api m u) _ (Keeps-policy m u) (
              Keeps-then P (sync_modifiers api m) _ (Keeps-sync m) (
                Keeps-then P (track api u down) _ (Keeps-track u down allowed)
                  (Keeps-call P (invalid "usage_id") _ (λ b. closed.key b u down allowed))))))

  Keeps-key_state_sync :
      (grant : SessionGrant) (now : ℕ) (pressed : List ℕ)
      → Keeps P (key_state_sync api grant now pressed)
  unfolding key_state_sync
  Keeps-key_state_sync grant now pressed =
      Keeps-admitted grant EventClass.key now _ (Keeps-reconcile pressed)

  Keeps-text_input :
      (grant : SessionGrant) (now : ℕ) (commit : Bool) (bytes : List ℕ)
      → Keeps P (text_input api grant now commit bytes)
  unfolding text_input
  Keeps-text_input grant now true bytes =
      Keeps-admitted grant EventClass.key now _
        (Keeps-call P (invalid "text") _ (λ b. closed.text b bytes))
  Keeps-text_input grant now false bytes =
      Keeps-admitted grant EventClass.key now (pure tt) (λ s g. g)

  counted : (m : M B GuardError (Unit {0})) → Keeps P m → Keeps P (m >> count_injected)
  counted m h = Keeps-then P m count_injected h (Keeps-count P)

  Keeps-dispatch :
      (grant : SessionGrant) (p : Payload) (now : ℕ) → Keeps P (dispatch api grant p now)
  unfolding dispatch
  Keeps-dispatch grant (Payload.mouse_move d f x y m) now =
      counted _ (Keeps-mouse_move grant now d x y m)
  Keeps-dispatch grant (Payload.mouse_move_relative dx dy m d) now =
      counted _ (Keeps-mouse_move_relative grant now dx dy m)
  Keeps-dispatch grant (Payload.mouse_button b a x y m d c) now =
      counted _ (Keeps-mouse_button grant now b (is_down a) x y m d)
  Keeps-dispatch grant (Payload.mouse_wheel v h m d f) now =
      counted _ (Keeps-mouse_wheel grant now v h m)
  Keeps-dispatch grant (Payload.key_event page u a f m) now =
      counted _ (Keeps-key_event grant now page u (is_not_up a) m)
  Keeps-dispatch grant (Payload.key_state_sync m a pressed) now =
      counted _ (Keeps-key_state_sync grant now pressed)
  Keeps-dispatch grant (Payload.text_input c p bytes) now =
      counted _ (Keeps-text_input grant now c bytes)
  Keeps-dispatch grant _ now = λ s g. g

  apply-IsGood :
      (grant : SessionGrant) (p : Payload) (now : ℕ) (s : Injector B) (c : LocalControl)
      → s.local_control ≡ c
      → IsGood P s
      → IsGood P (apply api grant p now s).0
  unfolding apply
  apply-IsGood grant p now s LocalControl.local_user e g =
      simp (e, apply) (record { backend = g.backend; keys = g.keys })
  apply-IsGood grant p now s LocalControl.remote_peer e g =
      simp (e, apply) (Keeps-dispatch grant p now s g)

  -- Whatever message arrives, whatever the backend answers: a predicate on the backend that every
  -- call keeps whose key usage is on the allowlist (0x01 to 0xE7) still holds after `apply`, and
  -- the held keys stay a set of at most 32 such usages.
  pub apply_allowed :
      (grant : SessionGrant) (p : Payload) (now : ℕ) (s : Injector B)
      → P s.backend
      → IsValid s.keys
      → P (apply api grant p now s).0.backend × IsValid (apply api grant p now s).0.keys
  apply_allowed grant p now s b k =
      let g = apply-IsGood grant p now s s.local_control refl (record { backend = b; keys = k }) in
      (g.backend, g.keys)
