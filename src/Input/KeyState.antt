-- ===== src/Input/KeyState.antt =====
-- crates/rda-input/src/state.rs: which keys the peer holds, reconciliation, the sync watchdog.
pub mod Valid
pub mod Replay
pub mod Reconcile
pub mod Release
use remote.Prelude.{
  ℕ, zero, suc, ◌+◌, ◌-◌, ◌*◌, ◌/◌, ◌%◌, List, [], ◌∷◌, ◌++◌, map, Option, none, some, Bool, true,
  false, ◌&&◌, ◌||◌, not, leb, ltb, ◌==◌, if◌then◌else◌, length, take,
}
use remote.Proto.Payload.{Modifiers}
use remote.Input.Hid.{modifier_bit, modifier_usages, is_modifier, is_valid_keyboard_usage}
use remote.Input.KeyAction.{KeyAction}
use remote.Input.KeySet.{contains, insert, remove, filter, from_list, difference}

abbrev pub max_held_keys : ℕ
max_held_keys = 32

pub record KeyState : Type 0 where
  pub held : List ℕ

abbrev pub new : KeyState
new = record { held = [] }

unfoldable pub press : KeyState → ℕ → KeyState × Bool
press s u =
    if leb max_held_keys (length s.held) && not (contains s.held u)
    then (s, false)
    else (record { held = insert u s.held }, not (contains s.held u))

unfoldable pub release : KeyState → ℕ → KeyState × Bool
release s u = (record { held = remove u s.held }, contains s.held u)

abbrev pub is_held : KeyState → ℕ → Bool
is_held s u = contains s.held u

abbrev pub is_empty : KeyState → Bool
is_empty s = length s.held == 0

-- `bits & bit != 0` for a `bit` that is a power of two, or 0.
abbrev pub has_bit : ℕ → ℕ → Bool
has_bit bits bit = not (bits / bit % 2 == 0) && not (bit == 0)

-- `bits |= bit`, `bit` a power of two.
abbrev or_bit : ℕ → ℕ → ℕ
or_bit bits bit = if has_bit bits bit then bits else bits + bit

collect_bits : ℕ → List ℕ → ℕ
collect_bits bits [] = bits
collect_bits bits (u ∷ us) =
    collect_bits (elim (modifier_bit u) [ none ↦ bits | some bit ↦ or_bit bits bit ]) us

unfoldable pub modifiers : KeyState → Modifiers
unfolding collect_bits
modifiers s = collect_bits 0 s.held

-- The set that a KeyStateSync asks for.
unfoldable pub target : List ℕ → List ℕ
target authoritative = from_list (take max_held_keys (filter is_valid_keyboard_usage authoritative))

unfoldable pub reconcile : KeyState → List ℕ → KeyState × List KeyAction
reconcile s authoritative =
    let wanted = target authoritative in
    (
      record { held = wanted },
      map KeyAction.release (difference s.held wanted)
          ++ map KeyAction.press (difference wanted s.held),
    )

-- `hid::modifier_bit(usage).unwrap_or(0)`.
abbrev pub bit_or_zero : Option ℕ → ℕ
bit_or_zero none = 0
bit_or_zero (some bit) = bit

-- The test of the loop over MODIFIER_USAGES.
unfoldable pub to_release : List ℕ → Modifiers → ℕ → Bool
to_release held ms u = contains held u && not (has_bit ms (bit_or_zero (modifier_bit u)))

-- `for action in &actions { self.held.remove(&action.usage()); }`.
unfoldable pub remove_all : List ℕ → List ℕ → List ℕ
remove_all held [] = held
remove_all held (u ∷ us) = remove_all (remove u held) us

unfoldable pub reconcile_modifiers : KeyState → Modifiers → KeyState × List KeyAction
reconcile_modifiers s ms =
    let gone = filter (to_release s.held ms) modifier_usages in
    (record { held = remove_all s.held gone }, map KeyAction.release gone)

-- The order of `sort_by_key(|&u| (is_modifier(u), u))`.
abbrev pub key_le : ℕ → ℕ → Bool
key_le u v = if is_modifier u then is_modifier v && leb u v else is_modifier v || leb u v

unfoldable pub sort_in : ℕ → List ℕ → List ℕ
sort_in u [] = u ∷ []
sort_in u (v ∷ vs) = let rest = sort_in u vs in if key_le u v then u ∷ v ∷ vs else v ∷ rest

unfoldable pub sort_by_key : List ℕ → List ℕ
sort_by_key [] = []
sort_by_key (u ∷ us) = sort_in u (sort_by_key us)

unfoldable pub release_all : KeyState → KeyState × List KeyAction
release_all s = (record { held = [] }, map KeyAction.release (sort_by_key s.held))

-- ReleaseGuard: the callback collects what it is handed.
pub record ReleaseGuard : Type 0 where
  pub state : KeyState
  pub released : List (List KeyAction)
  pub armed : Bool

abbrev pub guard : ReleaseGuard
guard = record { state = new; released = []; armed = true }

unfoldable pub release_now : ReleaseGuard → ReleaseGuard
release_now g =
    if g.armed
    then (let (s, actions) = release_all g.state in
        record {
          state = s;
          released = if length actions == 0 then g.released else g.released ++ actions ∷ [];
          armed = false;
        })
    else g

-- SyncWatchdog.
abbrev pub sync_interval_ms : ℕ
sync_interval_ms = 250

pub record SyncWatchdog : Type 0 where
  pub last_sync_ms : ℕ
  pub grace_ms : ℕ

unfoldable pub watch : ℕ → SyncWatchdog
watch now_ms = record { last_sync_ms = now_ms; grace_ms = sync_interval_ms * 3 }

unfoldable pub observe : SyncWatchdog → ℕ → SyncWatchdog
observe w now_ms = record w { last_sync_ms = now_ms }

-- `saturating_sub` is the subtraction of ℕ.
unfoldable pub is_stale : SyncWatchdog → ℕ → Bool
is_stale w now_ms = ltb w.grace_ms (now_ms - w.last_sync_ms)
