-- ===== src/Signal/Registry.antt =====
-- crates/rda-signal-server/src/registry.rs: which devices are connected, and who is in a session
-- with whom. A map is a list of its entries, newest first, without two of one key. The envelopes
-- (`Env`) are opaque; a device's outbound queue is the list of those sent to it, and whether its
-- receiver still lives.
pub mod Table
pub mod Routing
use text.Mathlib.Text.{◌==◌ as str_eq}
use remote.Prelude.{
  ℕ, ◌+◌, ◌%◌, List, [], ◌∷◌, ◌++◌, Bool, true, false, ◌&&◌, ◌||◌, not, String, Option, none, some,
  Result, ok, err, if◌then◌else◌, ◌==◌, length,
}
use remote.Signal.Registry.Table.{find, remove, insert}

pub data Role : Type 0 where
  host controller both : Role

abbrev pub is_dialable : Role → Bool
is_dialable Role.controller = false
is_dialable Role.host = true
is_dialable Role.both = true

-- The advertised capabilities (`caps`) are left out: no operation here reads them.
pub record Peer (Env : Type 0) : Type 0 where
  pub device_id : String
  pub pubkey : List ℕ
  pub role : Role
  pub agent : Option String
  pub pop_rtt : List (String × ℕ)
  pub queue : List Env
  pub is_open : Bool
  pub conn_id : ℕ

pub record Session : Type 0 where
  pub id : String
  pub controller : String
  pub host : String
  pub created_ms : ℕ

unfoldable pub peer_of : Session → String → Option String
peer_of s sender =
    if str_eq sender s.controller
    then some s.host
    else if str_eq sender s.host
    then some s.controller
    else none

pub data RouteError : Type 0 where
  not_connected not_dialable not_a_participant unknown_session queue_closed : RouteError

pub record Registry (Env : Type 0) : Type 0 where
  pub peers : List (String × Peer Env)
  pub sessions : List (String × Session)
  pub next_id : ℕ

abbrev pub new : {Env : Type 0} → Registry Env
new = record { peers = []; sessions = []; next_id = 0 }

-- `fetch_add` of a u64 wraps.
abbrev pub next_conn_id : {Env : Type 0} → Registry Env → Registry Env × ℕ
next_conn_id r = (record r { next_id = (r.next_id + 1) % 18446744073709551616 }, r.next_id)

-- Also the displaced connection.
unfoldable pub register :
    {Env : Type 0} → Registry Env → Peer Env → Registry Env × Option (Peer Env)
register r peer =
    (record r { peers = insert peer.device_id peer r.peers }, find peer.device_id r.peers)

-- The two steps of `unregister`: the map is not locked between them.
unfoldable pub should_remove : {Env : Type 0} → Registry Env → String → ℕ → Bool
should_remove r device_id conn_id = elim (find device_id r.peers) [
  | none ↦ false
  | some p ↦ p.conn_id == conn_id
]

unfoldable pub remove_peer : {Env : Type 0} → Registry Env → String → Registry Env
remove_peer r device_id = record r { peers = remove device_id r.peers }

unfoldable pub unregister : {Env : Type 0} → Registry Env → String → ℕ → Registry Env × Bool
unregister r device_id conn_id =
    if should_remove r device_id conn_id then (remove_peer r device_id, true) else (r, false)

abbrev pub get : {Env : Type 0} → Registry Env → String → Option (Peer Env)
get r device_id = find device_id r.peers

abbrev pub peer_count : {Env : Type 0} → Registry Env → ℕ
peer_count r = length r.peers

abbrev pub session_count : {Env : Type 0} → Registry Env → ℕ
session_count r = length r.sessions

-- A send on a closed queue fails.
unfoldable pub send_to :
    {Env : Type 0} → Registry Env → String → Env → Registry Env × Result RouteError (Unit {0})
send_to r device_id env = elim (find device_id r.peers) [
  | none ↦ (r, err RouteError.not_connected)
  | some p ↦
      if p.is_open
      then (
        record r { peers = insert device_id (record p { queue = p.queue ++ env ∷ [] }) r.peers },
        ok tt,
      )
      else (r, err RouteError.queue_closed)
]

unfoldable pub resolve_target :
    {Env : Type 0} → Registry Env → String → Result RouteError (Peer Env)
resolve_target r target = elim (find target r.peers) [
  | none ↦ err RouteError.not_connected
  | some p ↦ if is_dialable p.role then ok p else err RouteError.not_dialable
]

unfoldable pub create_session :
    {Env : Type 0} → Registry Env → String → String → String → ℕ → Registry Env × Session
create_session r id controller_id host_id now_ms =
    let s : Session = record {
      id = id;
      controller = controller_id;
      host = host_id;
      created_ms = now_ms;
    } in
    (record r { sessions = insert id s r.sessions }, s)

abbrev pub session : {Env : Type 0} → Registry Env → String → Option Session
session r id = find id r.sessions

unfoldable pub end_session : {Env : Type 0} → Registry Env → String → Registry Env × Option Session
end_session r id = (record r { sessions = remove id r.sessions }, find id r.sessions)

-- `s.controller == *device_id || s.host == *device_id`.
abbrev pub is_participant : String → Session → Bool
is_participant device_id s = str_eq s.controller device_id || str_eq s.host device_id

unfoldable pub select_sessions : String → List (String × Session) → List Session
select_sessions device_id [] = []
select_sessions device_id ((k, s) ∷ rest) =
    let more = select_sessions device_id rest in
    if is_participant device_id s then s ∷ more else more

abbrev pub sessions_for : {Env : Type 0} → Registry Env → String → List Session
sessions_for r device_id = select_sessions device_id r.sessions

abbrev answer_id :
    {Env : Type 0}
    → String
    → Registry Env × Result RouteError (Unit {0})
    → Registry Env × Result RouteError String
answer_id peer_id (r, ok u) = (r, ok peer_id)
answer_id peer_id (r, err e) = (r, err e)

unfoldable pub forward_in_session :
    {Env : Type 0} → Registry Env → String → String → Env → Registry Env × Result RouteError String
forward_in_session r session_id sender env = elim (find session_id r.sessions) [
  | none ↦ (r, err RouteError.unknown_session)
  | some s ↦ elim (peer_of s sender) [
    | none ↦ (r, err RouteError.not_a_participant)
    | some peer_id ↦ answer_id peer_id (send_to r peer_id env)
  ]
]
