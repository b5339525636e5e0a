-- ===== src/Input/Injector/Authority.antt =====
-- Who may reach the operating system at all.
use remote.Prelude.{ℕ, ◌+◌, ◌≡◌, ◌⊎◌, refl, inl, inr, Bool, true, false, err}
use remote.Proto.Payload.{Payload}
use remote.Input.Backend.{Backend}
use remote.Input.Grant.{GuardError, SessionGrant}
use remote.Input.Injector.State.{Injector, LocalControl, ◌>>=◌, require_input}
use remote.Input.Injector.Apply.{
  apply, dispatch, mouse_move, mouse_move_relative, mouse_button, mouse_wheel, key_event,
  key_state_sync, text_input,
}

-- Is this a message that `apply` acts on?
abbrev pub is_input : Payload → Bool
is_input (Payload.mouse_move d f x y m) = true
is_input (Payload.mouse_move_relative dx dy m d) = true
is_input (Payload.mouse_button b a x y m d c) = true
is_input (Payload.mouse_wheel v h m d f) = true
is_input (Payload.key_event page u a f m) = true
is_input (Payload.key_state_sync m a pressed) = true
is_input (Payload.text_input c p bytes) = true
is_input _ = false

-- All that a refusal changes is its counter.
abbrev pub refused : {B : Type 0} → Injector B → Injector B
refused s = record s { stats = record (s.stats) { refused = s.stats.refused + 1 } }

module _ {B : Type 0} (api : Backend B) (grant : SessionGrant) (now : ℕ) (s : Injector B) where
  view_only :
      (p : Payload)
      → grant.caps.input ≡ false
      → is_input p ≡ true
      → dispatch api grant p now s ≡ (refused s, err GuardError.input_not_granted)
  unfolding dispatch require_input mouse_move mouse_move_relative mouse_button mouse_wheel key_event
      key_state_sync text_input
  view_only (Payload.mouse_move d f x y m) h e = rw (h, require_input, ◌>>=◌)
  view_only (Payload.mouse_move_relative dx dy m d) h e = rw (h, require_input, ◌>>=◌)
  view_only (Payload.mouse_button b a x y m d c) h e = rw (h, require_input, ◌>>=◌)
  view_only (Payload.mouse_wheel v w m d f) h e = rw (h, require_input, ◌>>=◌)
  view_only (Payload.key_event page u a f m) h e = rw (h, require_input, ◌>>=◌)
  view_only (Payload.key_state_sync m a pressed) h e = rw (h, require_input, ◌>>=◌)
  view_only (Payload.text_input c p bytes) h e = rw (h, require_input, ◌>>=◌)
  view_only _ h e = cc

  local_first :
      (p : Payload)
      → s.local_control ≡ LocalControl.local_user
      → apply api grant p now s ≡ (refused s, err GuardError.local_user_active)
  unfolding apply
  local_first p h = simp (h, apply)

  remote_dispatch :
      (p : Payload)
      → s.local_control ≡ LocalControl.remote_peer
      → apply api grant p now s ≡ dispatch api grant p now s
  unfolding apply
  remote_dispatch p h = simp (h, apply)

  -- While the local user has control, or without the input capability, an input message reaches
  -- nothing: the answer is an error, and the injector (its backend, keys, rate windows and
  -- everything else) is as it was but for the count of refusals.
  pub unauthorised_refused :
      (p : Payload)
      → is_input p ≡ true
      → (s.local_control ≡ LocalControl.local_user)
        ⊎ ((s.local_control ≡ LocalControl.remote_peer) × (grant.caps.input ≡ false))
      → ((apply api grant p now s).0 ≡ refused s)
        × ((e : GuardError) × ((apply api grant p now s).1 ≡ err e))
  unauthorised_refused p i (inl h) =
      rw (local_first p h) (refl, (GuardError.local_user_active, refl))
  unauthorised_refused p i (inr (h, g)) =
      rw (remote_dispatch p h, view_only p g i) (refl, (GuardError.input_not_granted, refl))
