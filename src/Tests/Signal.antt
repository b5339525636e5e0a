-- ===== src/Tests/Signal.antt =====
-- A controller and a host in one session. Envelopes are numbers.
use text.Mathlib.Text.{◌==◌ as str_eq}
use remote.Prelude.{
  inl, ℕ, ◌≡◌, ◌≢◌, refl, sym, ◌∙◌, ap, [], ◌∷◌, true, false, String, some, none, ok, err,
}
use remote.Signal.Registry.{
  Registry, Peer, Session, Role, RouteError, register, should_remove, remove_peer, get,
  forward_in_session,
}
use remote.Signal.Registry.Table.{find}
use remote.Signal.Registry.Routing.{forward_outsider, forward_delivers, unregister_race}

apart : (j k : String) → str_eq j k ≡ false → str_eq k k ≡ true → j ≢ k
apart j k h r e = let bad : false ≡ true = sym h ∙ (ap (λ x. str_eq x k) e ∙ r) in cc

abbrev device : String → ℕ → Peer ℕ
device name conn = record {
  device_id = name;
  pubkey = [];
  role = Role.both;
  agent = none;
  pop_rtt = [];
  queue = [];
  is_open = true;
  conn_id = conn;
}

abbrev call : Session
call = record { id = "S"; controller = "A"; host = "B"; created_ms = 0 }

abbrev server : Registry ℕ
server = record {
  peers = ("A", device "A" 1) ∷ ("B", device "B" 2) ∷ [];
  sessions = ("S", call) ∷ [];
  next_id = 3;
}

forward_delivers_example :
    let t = forward_in_session server "S" "A" 7 in
    (t.1 ≡ ok "B")
    × (get t.0 "B" ≡ some (record (device "B" 2) { queue = 7 ∷ [] }))
    × (get t.0 "A" ≡ get server "A")
    × (t.0.sessions ≡ server.sessions)
unfolding find
forward_delivers_example =
    forward_delivers server "S" "A" "B" "A" 7 call (device "B" 2) refl (inl (refl, refl)) refl refl
      (apart "A" "B" refl refl)

forward_outsider_example :
    forward_in_session server "S" "C" 7 ≡ (server, err RouteError.not_a_participant)
unfolding find
forward_outsider_example =
    forward_outsider server "S" "C" 7 call refl (apart "C" "A" refl refl) (apart "C" "B" refl refl)

unregister_race_example :
    (get (register server (device "A" 5)).0 "A" ≡ some (device "A" 5))
    × (should_remove (register server (device "A" 5)).0 "A" 1 ≡ false)
    × (get (remove_peer (register server (device "A" 5)).0 "A") "A" ≡ none)
unfolding should_remove find
unregister_race_example = unregister_race server (device "A" 5) 1 refl refl
