-- ===== src/Signal/Registry/Routing.antt =====
-- Who can reach whom through `forward_in_session`, and which connection `unregister` removes.
use text.Mathlib.Text.{◌==◌ as str_eq}
use remote.Prelude.{
  ap, subst, ℕ, ◌≡◌, ◌≢◌, ◌⊎◌, refl, sym, ◌∙◌, [], ◌∷◌, ◌++◌, true, false, String, none, some, ok,
  err, Bool-cases, Option-cases, inl, inr, ◌==◌,
}
use remote.Signal.Registry.{
  Registry, Peer, Session, RouteError, peer_of, register, unregister, should_remove, remove_peer,
  get, session, send_to, forward_in_session, resolve_target, is_dialable, end_session,
}
use remote.Signal.Registry.Table.{
  find, insert, find-insert_same, find-insert_other, find-remove_same, str_eq→≡, str_eq_refl,
  str_neq,
}

-- `peer` is the other end, for a sender that is one of the two ends.
abbrev pub IsOtherEnd : Session → String → String → Type 0
IsOtherEnd s sender peer =
    ((sender ≡ s.controller) × (peer ≡ s.host)) ⊎ ((sender ≡ s.host) × (peer ≡ s.controller))

-- `peer_of` finds the other end.
peer_of_complete :
    (s : Session) (sender peer : String) → IsOtherEnd s sender peer → peer_of s sender ≡ some peer
unfolding peer_of
peer_of_complete s sender peer h = elim (Bool-cases (str_eq sender s.controller)) [
  | inl e ↦
      let first = str_eq→≡ sender s.controller e in
      rw e (elim h [ inl (c, p) ↦ cc | inr (c, p) ↦ cc ])
  | inr n ↦ elim h [
    | inl (c, p) ↦
        let same : str_eq sender s.controller ≡ true =
          ap (str_eq sender) (sym c) ∙ str_eq_refl sender in
        absurd cc
    | inr (c, p) ↦
        let same : str_eq sender s.host ≡ true = ap (str_eq sender) (sym c) ∙ str_eq_refl sender in
        rw (n, same) cc
  ]
]

some_inj : {A : Type 0} (a b : A) → some a ≡ some b → a ≡ b
some_inj a b h = cc

pub peer_of_sound :
    (s : Session) (sender peer : String) → peer_of s sender ≡ some peer → IsOtherEnd s sender peer
unfolding peer_of
peer_of_sound s sender peer h = elim (Bool-cases (str_eq sender s.controller)) [
  | inl e ↦
      let at : peer_of s sender ≡ some s.host = rw (e, peer_of) in
      inl (str_eq→≡ sender s.controller e, some_inj peer s.host (sym h ∙ at))
  | inr n ↦ elim (Bool-cases (str_eq sender s.host)) [
    | inl e ↦
        let at : peer_of s sender ≡ some s.controller = rw (n, e, peer_of) in
        inr (str_eq→≡ sender s.host e, some_inj peer s.controller (sym h ∙ at))
    | inr e ↦ let at : peer_of s sender ≡ none = rw (n, e, peer_of) in absurd cc
  ]
]

module _ {Env : Type 0} (r : Registry Env) where
  -- A device that is not in the session it names reaches nobody: the answer is an error, and the
  -- registry is as it was.
  pub forward_outsider :
      (id sender : String) (env : Env) (s : Session)
      → session r id ≡ some s
      → sender ≢ s.controller
      → sender ≢ s.host
      → forward_in_session r id sender env ≡ (r, err RouteError.not_a_participant)
  unfolding forward_in_session peer_of
  forward_outsider id sender env s h n m =
      rw (h, forward_in_session, str_neq sender s.controller n, str_neq sender s.host m)

  -- A message of one end of a session, when the other end is connected and its queue is open, goes
  -- to the end of that queue, and no other device, nor any session, changes.
  pub forward_delivers :
      (id sender peer other : String) (env : Env) (s : Session) (p : Peer Env)
      → session r id ≡ some s
      → IsOtherEnd s sender peer
      → get r peer ≡ some p
      → p.is_open ≡ true
      → other ≢ peer
      → let t = forward_in_session r id sender env in
        (t.1 ≡ ok peer)
        × (get t.0 peer ≡ some (record p { queue = p.queue ++ env ∷ [] }))
        × (get t.0 other ≡ get r other)
        × (t.0.sessions ≡ r.sessions)
  unfolding forward_in_session send_to
  forward_delivers id sender peer other env s p h k g o n =
      rw (h, forward_in_session, peer_of_complete s sender peer k, g, send_to, o)
        (refl, find-insert_same peer _ r.peers, find-insert_other peer other _ r.peers n, refl)

  -- A connection that has been replaced cannot remove its replacement: `unregister` with another
  -- connection's number leaves the registry as `register` made it.
  pub unregister_replaced :
      (p : Peer Env) (conn_id : ℕ)
      → (p.conn_id == conn_id) ≡ false
      → unregister (register r p).0 p.device_id conn_id ≡ ((register r p).0, false)
  unfolding unregister should_remove register
  unregister_replaced p conn_id h =
      rw (find-insert_same p.device_id p r.peers, unregister, should_remove, h)

  -- The two steps of `unregister` are not one: when the replacement registers between the check of
  -- the old connection's number and the removal, it is the replacement that is removed.
  pub unregister_race :
      (p : Peer Env) (conn_id : ℕ)
      → should_remove r p.device_id conn_id ≡ true
      → (p.conn_id == conn_id) ≡ false
      → (get (register r p).0 p.device_id ≡ some p)
        × (should_remove (register r p).0 p.device_id conn_id ≡ false)
        × (get (remove_peer (register r p).0 p.device_id) p.device_id ≡ none)
  unfolding should_remove register remove_peer
  unregister_race p conn_id h n = (
    find-insert_same p.device_id p r.peers,
    rw (find-insert_same p.device_id p r.peers, should_remove, n),
    find-remove_same p.device_id (insert p.device_id p r.peers),
  )

  -- Nothing is routed in a session that has ended.
  pub forward_ended :
      (id sender : String) (env : Env)
      → forward_in_session (end_session r id).0 id sender env
        ≡ ((end_session r id).0, err RouteError.unknown_session)
  unfolding forward_in_session end_session
  forward_ended id sender env = rw (find-remove_same id r.sessions, forward_in_session)

  -- A device that can be dialled is connected, and registered in a role that may be dialled.
  pub resolve_target_sound :
      (target : String) (p : Peer Env)
      → resolve_target r target ≡ ok p
      → (get r target ≡ some p) × (is_dialable p.role ≡ true)
  unfolding resolve_target
  resolve_target_sound target p h = elim (Option-cases (find target r.peers)) [
    | inl e ↦
        let at : resolve_target r target ≡ err RouteError.not_connected = rw (e, resolve_target) in
        absurd cc
    | inr (q, e) ↦ elim (Bool-cases (is_dialable q.role)) [
      | inl d ↦
          let at : resolve_target r target ≡ ok q = rw (e, resolve_target, d) in
          let same : q ≡ p = cc in (cc, subst (λ x. is_dialable x.role ≡ true) same d)
      | inr d ↦
          let at : resolve_target r target ≡ err RouteError.not_dialable =
            rw (e, resolve_target, d) in
          absurd cc
    ]
  ]
