-- ===== src/Tests/Host.antt =====
-- A host: held keys, rate windows, and a backend that records its key calls.
use remote.Prelude.{
  ℕ, ◌≡◌, refl, List, [], ◌∷◌, ◌++◌, ok, err, true, arith, All, replicate, not, ◌&&◌, inr,
}
use mathlib.Core.List.{map, Perm}
use remote.Proto.Caps.{view_only}
use remote.Proto.Payload
use remote.Proto.Payload.{Payload}
use remote.Input.Backend.{Backend, BackendError}
use remote.Input.Grant.{SessionGrant, AuthMethod, GuardError, empty_window}
use remote.Input.KeyAction.{KeyAction}
use remote.Input.KeySet.{contains}
use remote.Input.KeyState
use remote.Input.KeyState.{
  KeyState, reconcile, reconcile_modifiers, release_all, is_empty, has_bit, bit_or_zero,
}
use remote.Input.KeyState.Valid.{IsValid, IsUsage}
use remote.Input.KeyState.Reconcile.{
  reconcile_replays, reconcile_exact, reconcile_modifiers_exact, lifted,
}
use remote.Input.KeyState.Replay
use remote.Input.KeyState.Release.{release_all_order, IsOrdered}
use remote.Input.Grant.Rates.{run, run_burst}
use remote.Input.Injector.State
use remote.Input.Injector.State.{Injector, LocalControl}
use remote.Input.Injector.Apply.{apply, set_local_control}
use remote.Input.Injector.Keeps.{IsClosed}
use remote.Input.Injector.Allowlist.{apply_allowed}
use remote.Input.Injector.Authority.{unauthorised_refused, refused}
use remote.Input.Injector.Control.{set_local_control_takes, set_local_control_fails, released}

-- Ctrl (left) and the key A.
abbrev ctrl_a : KeyState
ctrl_a = record { held = 0x04 ∷ 0xE0 ∷ [] }

ctrl_a-IsValid : IsValid ctrl_a
ctrl_a-IsValid = record {
  ascending = (omega arith, tt);
  capped = omega arith;
  usages = ((omega arith, omega arith), ((omega arith, omega arith), tt));
}

-- A backend that records its key calls, and one that refuses them.
abbrev recording : Backend (List ℕ)
recording = record {
  pointer_absolute = λ b x y. (b, ok tt);
  pointer_relative = λ b x y. (b, ok tt);
  button = λ b id down. (b, ok tt);
  scroll = λ b delta. (b, ok tt);
  key = λ b u down. (u ∷ b, ok tt);
  text = λ b bytes. (b, ok tt);
}

abbrev refusing : Backend (List ℕ)
refusing = record {
  pointer_absolute = λ b x y. (b, ok tt);
  pointer_relative = λ b x y. (b, ok tt);
  button = λ b id down. (b, ok tt);
  scroll = λ b delta. (b, ok tt);
  key = λ b u down. (b, err BackendError.unsupported);
  text = λ b bytes. (b, ok tt);
}

recording-IsClosed : IsClosed recording (All IsUsage)
recording-IsClosed = record {
  pointer_absolute = λ b x y h. h;
  pointer_relative = λ b x y h. h;
  button = λ b id down h. h;
  scroll = λ b delta h. h;
  key = λ b u down k h. (k, h);
  text = λ b bytes h. h;
}

abbrev host : Injector (List ℕ)
host = record (State.new [] []) { keys = ctrl_a }

abbrev grant : SessionGrant
grant = record {
  session_id = 83 ∷ [];
  peer = 80 ∷ [];
  caps = record view_only { input = true };
  method = AuthMethod.session_pin;
  granted_at_ms = 0;
}

abbrev watching : SessionGrant
watching = record grant { caps = view_only }

abbrev key_b : Payload
key_b = Payload.key_event 0x07 0x05 Payload.KeyAction.down 0 1

apply_allowed_example :
    All IsUsage (apply recording grant key_b 5 host).0.backend
    × IsValid (apply recording grant key_b 5 host).0.keys
unfolding State.new
apply_allowed_example =
    apply_allowed recording (All IsUsage) recording-IsClosed grant key_b 5 host tt ctrl_a-IsValid

unauthorised_refused_example :
    ((apply recording watching key_b 5 host).0 ≡ refused host)
    × ((e : GuardError) × ((apply recording watching key_b 5 host).1 ≡ err e))
unfolding State.new
unauthorised_refused_example =
    unauthorised_refused recording watching 5 host key_b refl (inr (refl, refl))

set_local_control_takes_example :
    (us : List ℕ) × Perm us ctrl_a.held
    × IsOrdered us
    × (set_local_control recording LocalControl.local_user host ≡ (
      record host {
        backend = released recording us [];
        keys = record { held = [] };
        local_control = LocalControl.local_user;
      },
      ok tt,
    ))
unfolding State.new
set_local_control_takes_example = set_local_control_takes recording (λ b u down. refl) host

set_local_control_fails_example :
    let t = set_local_control refusing LocalControl.local_user host in
    (t.1 ≡ err BackendError.unsupported)
    × (t.0.local_control ≡ LocalControl.remote_peer)
    × (t.0.keys.held ≡ [])
unfolding release_all KeyState.sort_by_key KeyState.sort_in State.new
set_local_control_fails_example =
    set_local_control_fails refusing host (KeyAction.release 0x04) (KeyAction.release 0xE0 ∷ [])
      BackendError.unsupported refl refl refl

reconcile_replays_example :
    Replay.replay (contains ctrl_a.held) (reconcile ctrl_a (0x05 ∷ [])).1 0xE0
    ≡ contains (reconcile ctrl_a (0x05 ∷ [])).0.held 0xE0
reconcile_replays_example = reconcile_replays ctrl_a (0x05 ∷ []) 0xE0

reconcile_exact_example :
    contains (reconcile ctrl_a (0x05 ∷ [])).0.held 0xE0 ≡ contains (0x05 ∷ []) 0xE0
reconcile_exact_example =
    reconcile_exact ctrl_a (0x05 ∷ []) 0xE0 (omega arith) ((omega arith, omega arith), tt)

reconcile_modifiers_exact_example :
    ((reconcile_modifiers ctrl_a 2).1 ≡ map KeyAction.release (lifted ctrl_a.held 2))
    × (contains (reconcile_modifiers ctrl_a 2).0.held 0xE0
        ≡ (not (contains (lifted ctrl_a.held 2) 0xE0) && contains ctrl_a.held 0xE0))
reconcile_modifiers_exact_example = reconcile_modifiers_exact ctrl_a 2 0xE0

run_burst_example : (run empty_window 100 (replicate 100 999 ++ replicate 100 1000)).1 ≡ 200
run_burst_example = run_burst empty_window 99 refl (omega arith)

release_all_order_example :
    (us : List ℕ) × ((release_all ctrl_a).1 ≡ map KeyAction.release us)
    × Perm us ctrl_a.held
    × IsOrdered us
    × ((release_all ctrl_a).0.held ≡ [])
release_all_order_example = release_all_order ctrl_a
