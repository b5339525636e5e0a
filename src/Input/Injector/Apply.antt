-- ===== src/Input/Injector/Apply.antt =====
-- lib.rs, `Injector::apply`, `set_local_control` and `release_all`.
use remote.Prelude.{
  ℕ, ◌+◌, List, [], ◌∷◌, Bool, true, false, String, ok, Option, none, some, if◌then◌else◌, length,
  ◌==◌, not, ◌||◌,
}
use remote.Prelude.Int.{ℤ}
use remote.Proto.Payload
use remote.Proto.Payload.{Payload, Modifiers, MouseButtonId}
use remote.Input.Backend.{Backend, BackendError, Button}
use remote.Input.Display.{denormalise}
use remote.Input.Grant.{GuardError, EventClass, SessionGrant, permits}
use remote.Input.Hid.{KeyMapping, page_keyboard, is_valid_keyboard_usage, lookup}
use remote.Input.KeyAction.{KeyAction, usage}
use remote.Input.KeyState
use remote.Input.KeyState.{KeyState, reconcile, reconcile_modifiers, release_all, is_empty}
use remote.Input.Injector.State.{
  Injector, LocalControl, M, ◌>>=◌, ◌>>◌, pure, fail, refuse, count_injected, require_input,
  rate_ok, display, call,
}

abbrev pub map_button : MouseButtonId → Button
map_button MouseButtonId.left = Button.left
map_button MouseButtonId.right = Button.right
map_button MouseButtonId.middle = Button.middle
map_button MouseButtonId.x1 = Button.back
map_button MouseButtonId.x2 = Button.forward

abbrev pub is_press : KeyAction → Bool
is_press (KeyAction.press u) = true
is_press (KeyAction.release u) = false

-- `matches!(action, Down)` and `!matches!(action, Up)` of the wire's KeyAction.
abbrev pub is_down : Payload.KeyAction → Bool
is_down Payload.KeyAction.down = true
is_down _ = false

abbrev pub is_not_up : Payload.KeyAction → Bool
is_not_up Payload.KeyAction.up = false
is_not_up _ = true

abbrev pub is_unmapped : Option KeyMapping → Bool
is_unmapped none = true
is_unmapped (some k) = false

-- The errors of `map_err`.
abbrev pub invalid : String → BackendError → GuardError
invalid field e = GuardError.invalid_field field

abbrev pub count_reconciled : {B E : Type 0} → M B E (Unit {0})
count_reconciled s =
    (record s { stats = record (s.stats) { reconciled = s.stats.reconciled + 1 } }, ok tt)

module _ {B : Type 0} (api : Backend B) where
  open api use {pointer_absolute, pointer_relative, button, scroll, key, text}

  -- The loop of `sync_modifiers`; the backend's answer is dropped (`let _ =`).
  unfoldable pub release_each : List KeyAction → Injector B → Injector B
  release_each [] s = s
  release_each (a ∷ acts) s = release_each acts (record s {
    backend = (key s.backend (usage a) false).0;
    stats = record (s.stats) { reconciled = s.stats.reconciled + 1 };
  })

  unfoldable pub sync_modifiers : Modifiers → M B GuardError (Unit {0})
  sync_modifiers modifiers s =
      let (keys, actions) = reconcile_modifiers s.keys modifiers in
      (release_each actions (record s { keys = keys }), ok tt)

  -- The loop of KeyStateSync.
  unfoldable pub apply_each : List KeyAction → M B GuardError (Unit {0})
  apply_each [] = pure tt
  apply_each (a ∷ acts) = do
    count_reconciled
    call (invalid "usage_id") (λ b. key b (usage a) (is_press a))
    apply_each acts

  -- The loop of `release_all` and of `set_local_control`.
  unfoldable pub send_each : List KeyAction → M B BackendError (Unit {0})
  send_each [] = pure tt
  send_each (a ∷ acts) = do call (λ e. e) (λ b. key b (usage a) (is_press a)); send_each acts

  unfoldable pub mouse_move : SessionGrant → ℕ → ℕ → ℕ → ℕ → Modifiers → M B GuardError (Unit {0})
  mouse_move grant now_ms display_id x_norm y_norm modifiers = do
    require_input grant
    rate_ok EventClass.pointer now_ms
    geom ← display display_id
    sync_modifiers modifiers
    let at = denormalise geom x_norm y_norm
    call (invalid "pointer") (λ b. pointer_absolute b at.0 at.1)

  unfoldable pub mouse_move_relative :
      SessionGrant → ℕ → ℤ → ℤ → Modifiers → M B GuardError (Unit {0})
  mouse_move_relative grant now_ms dx dy modifiers = do
    require_input grant
    rate_ok EventClass.pointer now_ms
    sync_modifiers modifiers
    call (invalid "delta") (λ b. pointer_relative b dx dy)

  unfoldable pub mouse_button :
      SessionGrant → ℕ → MouseButtonId → Bool → ℕ → ℕ → Modifiers → ℕ → M B GuardError (Unit {0})
  mouse_button grant now_ms id down x_norm y_norm modifiers display_id = do
    require_input grant
    rate_ok EventClass.key now_ms
    geom ← display display_id
    sync_modifiers modifiers
    let at = denormalise geom x_norm y_norm
    call (invalid "pointer") (λ b. pointer_absolute b at.0 at.1)
    call (invalid "button") (λ b. button b (map_button id) down)

  unfoldable pub mouse_wheel : SessionGrant → ℕ → ℤ → ℤ → Modifiers → M B GuardError (Unit {0})
  mouse_wheel grant now_ms delta_v delta_h modifiers = do
    require_input grant
    rate_ok EventClass.key now_ms
    sync_modifiers modifiers
    call (invalid "scroll") (λ b. scroll b (record { vertical = delta_v; horizontal = delta_h }))

  -- `self.keys.press(..)` or `self.keys.release(..)`, the result unused.
  unfoldable pub track : ℕ → Bool → M B GuardError (Unit {0})
  track u down s = (
    record s { keys = if down then (KeyState.press s.keys u).0 else (KeyState.release s.keys u).0 },
    ok tt,
  )

  unfoldable pub check_policy : Modifiers → ℕ → M B GuardError (Unit {0})
  check_policy modifiers u s =
      if permits s.policy modifiers u then (s, ok tt) else refuse GuardError.blocked_combination s

  unfoldable pub key_event : SessionGrant → ℕ → ℕ → ℕ → Bool → Modifiers → M B GuardError (Unit {0})
  key_event grant now_ms usage_page usage_id down modifiers = do
    require_input grant
    rate_ok EventClass.key now_ms
    if usage_page == page_keyboard then pure tt else fail GuardError.disallowed_usage
    if not (is_valid_keyboard_usage usage_id) || is_unmapped (lookup usage_id)
        then fail GuardError.disallowed_usage
        else pure tt
    check_policy modifiers usage_id
    sync_modifiers modifiers
    track usage_id down
    call (invalid "usage_id") (λ b. key b usage_id down)

  -- `for action in self.keys.reconcile(pressed)`.
  unfoldable pub reconcile_keys : List ℕ → M B GuardError (Unit {0})
  reconcile_keys pressed s =
      let (keys, actions) = reconcile s.keys pressed in
      apply_each actions (record s { keys = keys })

  unfoldable pub key_state_sync : SessionGrant → ℕ → List ℕ → M B GuardError (Unit {0})
  key_state_sync grant now_ms pressed = do
    require_input grant
    rate_ok EventClass.key now_ms
    reconcile_keys pressed

  unfoldable pub text_input : SessionGrant → ℕ → Bool → List ℕ → M B GuardError (Unit {0})
  text_input grant now_ms commit bytes = do
    require_input grant
    rate_ok EventClass.key now_ms
    if commit then call (invalid "text") (λ b. text b bytes) else pure tt

  -- The `match &frame.payload`.
  unfoldable pub dispatch : SessionGrant → Payload → ℕ → M B GuardError (Unit {0})
  dispatch grant (Payload.mouse_move d f x y m) now_ms =
      mouse_move grant now_ms d x y m >> count_injected
  dispatch grant (Payload.mouse_move_relative dx dy m d) now_ms =
      mouse_move_relative grant now_ms dx dy m >> count_injected
  dispatch grant (Payload.mouse_button b a x y m d c) now_ms =
      mouse_button grant now_ms b (is_down a) x y m d >> count_injected
  dispatch grant (Payload.mouse_wheel v h m d f) now_ms =
      mouse_wheel grant now_ms v h m >> count_injected
  dispatch grant (Payload.key_event page u a f m) now_ms =
      key_event grant now_ms page u (is_not_up a) m >> count_injected
  dispatch grant (Payload.key_state_sync m a pressed) now_ms =
      key_state_sync grant now_ms pressed >> count_injected
  dispatch grant (Payload.text_input c p bytes) now_ms =
      text_input grant now_ms c bytes >> count_injected
  dispatch grant _ now_ms = pure tt

  unfoldable pub apply : SessionGrant → Payload → ℕ → M B GuardError (Unit {0})
  apply grant payload now_ms s = elim s.local_control [
    | LocalControl.local_user ↦ refuse GuardError.local_user_active s
    | LocalControl.remote_peer ↦ dispatch grant payload now_ms s
  ]

  abbrev put_control : LocalControl → M B BackendError (Unit {0})
  put_control control s = (record s { local_control = control }, ok tt)

  -- `for action in self.keys.release_all() { self.backend.key(..)?; }`.
  unfoldable pub drain_keys : M B BackendError (Unit {0})
  drain_keys s =
      let (keys, actions) = release_all s.keys in send_each actions (record s { keys = keys })

  unfoldable pub set_local_control : LocalControl → M B BackendError (Unit {0})
  unfolding drain_keys
  set_local_control LocalControl.local_user s =
      (if is_empty s.keys
          then put_control LocalControl.local_user
          else (drain_keys >> put_control LocalControl.local_user))
        s
  set_local_control LocalControl.remote_peer s = put_control LocalControl.remote_peer s

  -- `Injector::release_all`: how many keys it released.
  unfoldable pub release_keys : M B BackendError ℕ
  unfolding drain_keys
  release_keys s = (drain_keys >> pure (length (release_all s.keys).1)) s
