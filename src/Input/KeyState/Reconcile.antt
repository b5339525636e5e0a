-- ===== src/Input/KeyState/Reconcile.antt =====
-- Reconciliation makes the operating system's keys those that the peer holds.
use remote.Prelude.{
  Bool, true, ◌==◌, ◌%◌, ◌/◌, ◌^◌, ◌-◌, sym, ◌∙◌, ℕ, ◌≤◌, ◌≡◌, refl, List, [], ◌∷◌, map, ◌&&◌, not,
  arith, length, take-eq_self, All,
}
use remote.Input.Hid.{modifier_bit, modifier_usages, is_valid_keyboard_usage}
use remote.Input.KeyAction.{KeyAction}
use remote.Input.KeySet.{
  remove, contains, filter, difference, contains-filter, contains-from_list, contains-remove,
}
use remote.Input.KeyState.{
  Modifiers, KeyState, reconcile, reconcile_modifiers, target, to_release, remove_all,
}
use remote.Input.KeyState.Valid.{IsUsage}
use remote.Input.KeyState.Replay.{replay, replay-append, replay-releases, replay-presses}

-- Replaying the actions of `reconcile` on a system that holds down the recorded keys leaves
-- exactly the keys of the new state down.
pub reconcile_replays :
    (s : KeyState) (authoritative : List ℕ) (v : ℕ)
    → replay (contains s.held) (reconcile s authoritative).1 v
      ≡ contains (reconcile s authoritative).0.held v
unfolding reconcile difference
reconcile_replays s authoritative v =
    let wanted = target authoritative in
    let gone = difference s.held wanted in
    let due = difference wanted s.held in
    rw
      (
        replay-append (contains s.held) (map KeyAction.release gone) (map KeyAction.press due),
        replay-presses (replay (contains s.held) (map KeyAction.release gone)) due v,
        replay-releases (contains s.held) gone v,
      )
      (ground (
        arith,
        contains-filter (λ x. not (contains wanted x)) s.held v,
        contains-filter (λ x. not (contains s.held x)) wanted v,
      ))

filter_valid : (us : List ℕ) → All IsUsage us → filter is_valid_keyboard_usage us ≡ us
unfolding filter
filter_valid [] a = refl
filter_valid (u ∷ us) a = ground (arith, filter_valid us a.1)

-- A snapshot within the wire's cap, of keyboard usages, replaces the held set: a key is held
-- afterwards exactly when the snapshot names it, whatever was held before.
pub reconcile_exact :
    (s : KeyState) (authoritative : List ℕ) (v : ℕ)
    → length authoritative ≤ 32
    → All IsUsage authoritative
    → contains (reconcile s authoritative).0.held v ≡ contains authoritative v
unfolding reconcile target
reconcile_exact s authoritative v short valid =
    rw (filter_valid authoritative valid, take-eq_self 32 authoritative short)
      (contains-from_list authoritative v)

contains-remove_all :
    (held us : List ℕ) (v : ℕ)
    → contains (remove_all held us) v ≡ (not (contains us v) && contains held v)
unfolding remove_all contains
contains-remove_all held [] v = refl
contains-remove_all held (u ∷ us) v =
    ground (arith, contains-remove_all (remove u held) us v, contains-remove u held v)

-- The eight modifiers, of which bit i of a bitmask stands for usage 0xE0 + i.
abbrev pub modifier_keys : List ℕ
modifier_keys = 224 ∷ 225 ∷ 226 ∷ 227 ∷ 228 ∷ 229 ∷ 230 ∷ 231 ∷ []

-- The held modifiers whose bit is clear.
abbrev pub lifted : List ℕ → Modifiers → List ℕ
lifted held ms = filter (λ u. contains held u && ms / 2 ^ (u - 224) % 2 == 0) modifier_keys

filter-same : (p q : ℕ → Bool) (us : List ℕ) → All (λ u. p u ≡ q u) us → filter p us ≡ filter q us
unfolding filter
filter-same p q [] a = refl
filter-same p q (u ∷ us) a = rw (a.0, filter-same p q us a.1) refl

-- `mask & bit == 0`, for a bit that is not 0.
bit_clear : (h b : Bool) → (h && not (not b && true)) ≡ (h && b)
bit_clear h b = ground arith

to_release-lifted :
    (held : List ℕ) (ms : ℕ) → filter (to_release held ms) modifier_usages ≡ lifted held ms
unfolding to_release modifier_bit
to_release-lifted held ms =
    filter-same (to_release held ms) (λ u. contains held u && ms / 2 ^ (u - 224) % 2 == 0)
      modifier_keys
      (
        bit_clear (contains held 224) (ms / 1 % 2 == 0),
        (
          bit_clear (contains held 225) (ms / 2 % 2 == 0),
          (
            bit_clear (contains held 226) (ms / 4 % 2 == 0),
            (
              bit_clear (contains held 227) (ms / 8 % 2 == 0),
              (
                bit_clear (contains held 228) (ms / 16 % 2 == 0),
                (
                  bit_clear (contains held 229) (ms / 32 % 2 == 0),
                  (
                    bit_clear (contains held 230) (ms / 64 % 2 == 0),
                    (bit_clear (contains held 231) (ms / 128 % 2 == 0), tt),
                  ),
                ),
              ),
            ),
          ),
        ),
      )

-- The bitmask of an event gives the release of each held modifier whose bit is clear, in the order of
-- the usages, and no other action; these keys, and no others, leave the held set.
pub reconcile_modifiers_exact :
    (s : KeyState) (ms v : ℕ)
    → ((reconcile_modifiers s ms).1 ≡ map KeyAction.release (lifted s.held ms))
      × (contains (reconcile_modifiers s ms).0.held v
          ≡ (not (contains (lifted s.held ms) v) && contains s.held v))
unfolding reconcile_modifiers
reconcile_modifiers_exact s ms v =
    rw (to_release-lifted s.held ms) (refl, contains-remove_all s.held (lifted s.held ms) v)

-- The actions of `reconcile_modifiers`, replayed on a system that holds down the recorded keys, leave
-- exactly the keys of the new state down.
pub reconcile_modifiers_replays :
    (s : KeyState) (ms v : ℕ)
    → replay (contains s.held) (reconcile_modifiers s ms).1 v
      ≡ contains (reconcile_modifiers s ms).0.held v
unfolding reconcile_modifiers
reconcile_modifiers_replays s ms v =
    let gone = filter (to_release s.held ms) modifier_usages in
    replay-releases (contains s.held) gone v ∙ sym (contains-remove_all s.held gone v)
