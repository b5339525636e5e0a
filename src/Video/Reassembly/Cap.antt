-- ===== src/Video/Reassembly/Cap.antt =====
-- The number of frames in flight never passes the cap.
use remote.Prelude.{
  ℕ, zero, suc, ◌+◌, ◌≤◌, ◌<◌, ◌≡◌, ◌⊎◌, refl, List, [], ◌∷◌, Option, none, some, length, arith,
  ltb, ◌==◌, ◌||◌, not, false, Bool-cases, Option-cases, inl, inr, get_elem?, replicate,
  length-replicate,
}
use remote.Proto.Payload.{Payload}
use remote.Proto.WellFormed.{IsWire}
use remote.Video.Reassembly.{
  Reassembler, ReassemblyStats, Partial, in_flight, abandon, abandon_each, expired_ids, expire,
  oldest, evict, store, fill, fresh, accept_fragment, accept,
}
use remote.Video.Reassembly.Table.{
  find, remove, add, replace, length-remove-le, length-remove_found, length-add, find-add_same,
}

found_after :
    (j : ℕ) (p : Partial) (rest : List (ℕ × Partial)) (k : ℕ)
    → (k ≡ j) ⊎ ((q : Partial) × (find k rest ≡ some q))
    → (q : Partial) × (find k ((j, p) ∷ rest) ≡ some q)
unfolding find
found_after j p rest k h = elim (Bool-cases (j == k)) [
  | inl e ↦ rw e (p, refl)
  | inr e ↦ elim h [ inl same ↦ absurd (ground arith) | inr (q, f) ↦ rw e (q, f) ]
]

-- What `min_by_key` picks is a key of the map.
oldest_found :
    (id seen : ℕ) (t : List (ℕ × Partial))
    → (oldest id seen t ≡ id) ⊎ ((p : Partial) × (find (oldest id seen t) t ≡ some p))
unfolding oldest
oldest_found id seen [] = inl refl
oldest_found id seen ((j, p) ∷ rest) = elim (Bool-cases (ltb p.first_seen_ms seen)) [
  | inl e ↦ rw e (inr (found_after j p rest _ (oldest_found j p.first_seen_ms rest)))
  | inr e ↦ rw e (elim (oldest_found id seen rest) [
    | inl h ↦ inl h
    | inr h ↦ inr (found_after j p rest _ (inr h))
  ])
]

evict_capped :
    (n : ℕ) (t : List (ℕ × Partial)) (stats : ReassemblyStats)
    → length t ≤ n + 16
    → length (evict n (record { partials = t; stats = stats })).partials ≤ 16
unfolding evict abandon
evict_capped zero t stats h = h
evict_capped (suc n) [] stats h = omega arith
evict_capped (suc n) ((id, p) ∷ rest) stats h =
    let all = (id, p) ∷ rest in
    let victim = oldest id p.first_seen_ms rest in
    let (q, at) = found_after id p rest victim (oldest_found id p.first_seen_ms rest) in
    let next =
      evict_capped n (remove victim all) (record stats { incomplete = stats.incomplete + 1 })
        (omega (arith, length-remove_found victim q all at)) in
    ground arith

abandon_each_le :
    (r : Reassembler) (ids : List ℕ) → length (abandon_each r ids).partials ≤ length r.partials
unfolding abandon_each abandon
abandon_each_le r [] = omega arith
abandon_each_le r (id ∷ ids) =
    omega (arith, abandon_each_le (abandon r id) ids, length-remove-le id r.partials)

store_capped :
    (r : Reassembler) (id : ℕ) (p q : Partial)
    → find id r.partials ≡ some q
    → length r.partials ≤ 17
    → length (store r id p).0.partials ≤ 16
unfolding store
store_capped r id p q f h =
    let kept = replace id p r.partials in
    let evicted = evict_capped (length kept) kept r.stats (omega arith) in
    ground (arith, length-remove_found id q r.partials f)

fill-seen :
    (r : Reassembler) (id : ℕ) (p : Partial) (index count pts_us : ℕ) (bytes : List ℕ)
    → find id r.partials ≡ some p
    → length r.partials ≤ 16
    → length (fill r id p index count pts_us bytes).0.partials ≤ 16
unfolding fill
fill-seen r id p index count pts_us bytes f h =
    elim (Bool-cases (not (length p.slots == count) || not (p.pts_us == pts_us))) [
      | inl e ↦ rw (e, fill) h
      | inr e ↦ elim (Option-cases (get_elem? p.slots index)) [
        | inl g ↦ rw (e, fill, g) h
        | inr (none, g) ↦ rw (e, fill, g) (store_capped r id _ p f (omega arith))
        | inr (some old, g) ↦ rw (e, fill, g) h
      ]
    ]

pub get_elem?-replicate :
    {A : Type 0} (n i : ℕ) (a : A) → i < n → get_elem? (replicate n a) i ≡ some a
get_elem?-replicate zero i a h = absurd (omega arith)
get_elem?-replicate (suc n) zero a h = refl
get_elem?-replicate (suc n) (suc i) a h = get_elem?-replicate n i a (omega arith)

fill-fresh :
    (r : Reassembler) (id index count kind layer pts_us now : ℕ) (bytes : List ℕ)
    → find id r.partials ≡ some (fresh count kind layer pts_us now)
    → index < count
    → length r.partials ≤ 17
    → length (fill r id (fresh count kind layer pts_us now) index count pts_us bytes).0.partials
      ≤ 16
unfolding fill
fill-fresh r id index count kind layer pts_us now bytes f i h =
    let p = fresh count kind layer pts_us now in
    let agree : (not (length p.slots == count) || not (p.pts_us == pts_us)) ≡ false =
      ground (arith, length-replicate {A = Option (List ℕ)} count none) in
    rw (agree, fill, get_elem?-replicate {A = Option (List ℕ)} count index none i)
      (store_capped r id _ p f h)

fragment_capped :
    (r : Reassembler) (id index count kind layer pts_us : ℕ) (bytes : List ℕ) (now : ℕ)
    → index < count
    → length r.partials ≤ 16
    → length (accept_fragment r id index count kind layer pts_us bytes now).0.partials ≤ 16
unfolding accept_fragment
fragment_capped r id index count kind layer pts_us bytes now i h =
    elim (Option-cases (find id r.partials)) [
      | inr (p, e) ↦ rw (e, accept_fragment) (fill-seen r id p index count pts_us bytes e h)
      | inl e ↦ elim (Bool-cases (count == 1)) [
        | inl one ↦ rw (e, accept_fragment, one) h
        | inr more ↦
            let p = fresh count kind layer pts_us now in
            rw (e, accept_fragment, more)
              (fill-fresh (record r { partials = add id p r.partials }) id index count kind layer
                pts_us now bytes (find-add_same id p r.partials e) i
                (omega (arith, length-add id p r.partials)))
      ]
    ]

-- Whatever a peer sends, a reassembler with at most 16 frames in flight has at most 16 afterwards.
-- (The payload is one that the wire's decoder lets through: its fragment index is inside its count.)
pub accept_capped :
    (r : Reassembler) (p : Payload) (now : ℕ)
    → IsWire p
    → in_flight r ≤ 16
    → in_flight (accept r p now).0 ≤ 16
unfolding accept expire
accept_capped r (Payload.video_frame id index count kind layer pts bytes) now w h =
    fragment_capped _ id index count kind layer pts bytes now w.index_inside
      (omega (arith, abandon_each_le r (expired_ids r.partials now)))
accept_capped r _ now w h = h
