-- ===== src/Video/Reassembly/Delivery.antt =====
-- `accept` on the fragments of one frame among those of others.
use remote.Prelude.{
  ℕ, zero, suc, ◌+◌, ◌≡◌, ◌≢◌, refl, subst, sym, List, [], ◌∷◌, ◌++◌, none, some, length, arith,
  ltb, ◌==◌, ◌||◌, not, true, Bool-cases, Option-cases, inl, inr, get_elem?, IfSome,
}
use remote.Proto.Payload.{Payload}
use remote.Video.Reassembly.{
  Reassembler, ReassemblyStats, Partial, assemble, abandon, abandon_each, expired_ids, expire,
  oldest, evict, store, fill, fresh, accept_fragment, accept, is_complete,
}
use remote.Video.Reassembly.Table.{
  find, remove, add, replace, find-remove_same, find-remove_other, find-add_same, find-add_other,
  find-replace_same, find-replace_other,
}
use remote.Video.Reassembly.Honest.{
  joined, IsHonest, IsRight, count_filled, slot_inside, set-Matches, count_filled-set, flatten-full,
  replicate-Matches, count_filled-replicate,
}

joined-single :
    (cs : List (List ℕ)) (index : ℕ) (c : List ℕ)
    → (length cs == 1) ≡ true
    → get_elem? cs index ≡ some c
    → c ++ [] ≡ joined cs
joined-single [] index c e g = absurd cc
joined-single (d ∷ []) zero c e g = cc
joined-single (d ∷ []) (suc i) c e g = absurd cc
joined-single (d ∷ b ∷ cs) index c e g = absurd (ground arith)

module _ (id : ℕ) (cs : List (List ℕ)) (pts : ℕ) where
  -- What is held of frame `id`, if anything, is honest.
  abbrev pub Holds : List (ℕ × Partial) → Type 0
  Holds t = IfSome (IsHonest cs pts) (find id t)

  remove-Holds : (k : ℕ) (t : List (ℕ × Partial)) → Holds t → Holds (remove k t)
  remove-Holds k t h = elim (Bool-cases (id == k)) [
    | inl e ↦ let same : k ≡ id = ground arith in rw (same, find-remove_same id t) tt
    | inr e ↦ let other : id ≢ k = λ x. ground arith in rw (find-remove_other k id t other) h
  ]

  abandon_each-Holds :
      (r : Reassembler) (ids : List ℕ) → Holds r.partials → Holds (abandon_each r ids).partials
  unfolding abandon_each abandon
  abandon_each-Holds r [] h = h
  abandon_each-Holds r (k ∷ ids) h =
      abandon_each-Holds (abandon r k) ids (remove-Holds k r.partials h)

  evict-Holds :
      (n : ℕ) (t : List (ℕ × Partial)) (stats : ReassemblyStats)
      → Holds t
      → Holds (evict n (record { partials = t; stats = stats })).partials
  unfolding evict abandon
  evict-Holds zero t stats h = h
  evict-Holds (suc n) [] stats h = h
  evict-Holds (suc n) ((k, p) ∷ rest) stats h =
      let all = (k, p) ∷ rest in
      let victim = oldest k p.first_seen_ms rest in
      let next =
        evict-Holds n (remove victim all) (record stats { incomplete = stats.incomplete + 1 })
          (remove-Holds victim all h) in
      elim (Bool-cases (ltb 16 (length all))) [
        | inl e ↦ rw (e, evict) next
        | inr e ↦ rw (e, evict) h
      ]

  store-Holds :
      (r : Reassembler) (p q : Partial)
      → find id r.partials ≡ some q
      → IsHonest cs pts p
      → Holds (store r id p).0.partials × IsRight cs (store r id p).1
  unfolding store assemble
  store-Holds r p q f h = elim (Bool-cases (is_complete p)) [
    | inl e ↦
        let full : count_filled p.slots ≡ length p.slots = ground (arith, h.counted) in
        rw (e, store, find-remove_same id r.partials) (tt, flatten-full p.slots cs h.matches full)
    | inr e ↦
        let kept = replace id p r.partials in
        let held : Holds kept = rw (find-replace_same id p q r.partials f) h in
        rw (e, store) (evict-Holds (length kept) kept r.stats held, tt)
  ]

  fill-Holds :
      (r : Reassembler) (p : Partial) (index : ℕ) (c : List ℕ)
      → find id r.partials ≡ some p
      → IsHonest cs pts p
      → get_elem? cs index ≡ some c
      → let t = fill r id p index (length cs) pts c in Holds t.0.partials × IsRight cs t.1
  unfolding fill
  fill-Holds r p index c f h g =
      elim (Bool-cases (not (length p.slots == length cs) || not (p.pts_us == pts))) [
        | inl e ↦ rw (e, fill, f) (h, tt)
        | inr e ↦ elim (Option-cases (get_elem? p.slots index)) [
          | inl s ↦ absurd (slot_inside p.slots cs index c h.matches g s)
          | inr (none, s) ↦
              rw (e, fill, s)
                (store-Holds r _ p f (record {
                  matches = set-Matches p.slots cs index c h.matches g;
                  counted = omega (arith, count_filled-set p.slots index c s, h.counted);
                  stamped = h.stamped;
                }))
          | inr (some old, s) ↦ rw (e, fill, s, f) (h, tt)
        ]
      ]

  fresh-IsHonest : (kind layer now : ℕ) → IsHonest cs pts (fresh (length cs) kind layer pts now)
  fresh-IsHonest kind layer now = record {
    matches = replicate-Matches cs;
    counted = sym (count_filled-replicate (length cs));
    stamped = refl;
  }

  fragment-Holds :
      (r : Reassembler) (index kind layer : ℕ) (c : List ℕ) (now : ℕ)
      → Holds r.partials
      → get_elem? cs index ≡ some c
      → let t = accept_fragment r id index (length cs) kind layer pts c now in
        Holds t.0.partials × IsRight cs t.1
  unfolding accept_fragment assemble
  fragment-Holds r index kind layer c now h g = elim (Option-cases (find id r.partials)) [
    | inr (p, e) ↦
        let honest = subst (IfSome (IsHonest cs pts)) e h in
        rw (e, accept_fragment) (fill-Holds r p index c e honest g)
    | inl e ↦ elim (Bool-cases (length cs == 1)) [
      | inl one ↦ rw (e, accept_fragment, one, e) (tt, joined-single cs index c one g)
      | inr more ↦
          let p = fresh (length cs) kind layer pts now in
          rw (e, accept_fragment, more)
            (fill-Holds (record r { partials = add id p r.partials }) p index c
              (find-add_same id p r.partials e) (fresh-IsHonest kind layer now) g)
    ]
  ]

  -- Each fragment of a frame, in any order, among any duplicates: what is held of the frame stays
  -- bytes of that frame in their places, and what comes out, if anything does, is the whole frame.
  -- The index never leaves the slots.
  pub accept_honest :
      (r : Reassembler) (index kind layer : ℕ) (c : List ℕ) (now : ℕ)
      → Holds r.partials
      → get_elem? cs index ≡ some c
      → let t = accept r (Payload.video_frame id index (length cs) kind layer pts c) now in
        Holds t.0.partials × IsRight cs t.1
  unfolding accept expire
  accept_honest r index kind layer c now h g =
      fragment-Holds _ index kind layer c now (abandon_each-Holds r (expired_ids r.partials now) h)
        g

  store-other :
      (r : Reassembler) (k : ℕ) (p : Partial)
      → id ≢ k
      → Holds r.partials
      → Holds (store r k p).0.partials
  unfolding store
  store-other r k p n h = elim (Bool-cases (is_complete p)) [
    | inl e ↦ rw (e, store) (remove-Holds k r.partials h)
    | inr e ↦
        let kept = replace k p r.partials in
        let held : Holds kept = rw (find-replace_other k id p r.partials n) h in
        rw (e, store) (evict-Holds (length kept) kept r.stats held)
  ]

  fill-other :
      (r : Reassembler) (k : ℕ) (p : Partial) (index count stamp : ℕ) (c : List ℕ)
      → id ≢ k
      → Holds r.partials
      → Holds (fill r k p index count stamp c).0.partials
  unfolding fill
  fill-other r k p index count stamp c n h =
      elim (Bool-cases (not (length p.slots == count) || not (p.pts_us == stamp))) [
        | inl e ↦ rw (e, fill) h
        | inr e ↦ elim (Option-cases (get_elem? p.slots index)) [
          | inl s ↦ rw (e, fill, s) h
          | inr (none, s) ↦ rw (e, fill, s) (store-other r k _ n h)
          | inr (some old, s) ↦ rw (e, fill, s) h
        ]
      ]

  fragment-other :
      (r : Reassembler) (k index count kind layer stamp : ℕ) (c : List ℕ) (now : ℕ)
      → id ≢ k
      → Holds r.partials
      → Holds (accept_fragment r k index count kind layer stamp c now).0.partials
  unfolding accept_fragment
  fragment-other r k index count kind layer stamp c now n h =
      elim (Option-cases (find k r.partials)) [
        | inr (p, e) ↦ rw (e, accept_fragment) (fill-other r k p index count stamp c n h)
        | inl e ↦ elim (Bool-cases (count == 1)) [
          | inl one ↦ rw (e, accept_fragment, one) h
          | inr more ↦
              let p = fresh count kind layer stamp now in
              let added : Holds (add k p r.partials) = rw (find-add_other k id p r.partials n) h in
              rw (e, accept_fragment, more)
                (fill-other (record r { partials = add k p r.partials }) k p index count stamp c n
                  added)
        ]
      ]

  -- A fragment of another frame, honest or not, leaves what is held of the frame honest, whatever it
  -- makes the reassembler expire or evict.
  pub accept_other :
      (r : Reassembler) (k index count kind layer stamp : ℕ) (c : List ℕ) (now : ℕ)
      → id ≢ k
      → Holds r.partials
      → Holds (accept r (Payload.video_frame k index count kind layer stamp c) now).0.partials
  unfolding accept expire
  accept_other r k index count kind layer stamp c now n h =
      fragment-other _ k index count kind layer stamp c now n
        (abandon_each-Holds r (expired_ids r.partials now) h)
