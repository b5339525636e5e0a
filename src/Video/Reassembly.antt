-- ===== src/Video/Reassembly.antt =====
-- crates/rda-decode/src/reassembly.rs: fragments of video frames put together again. The BTreeMap
-- is the list of its entries in the order of their ids.
pub mod Table
pub mod Cap
pub mod Honest
pub mod Delivery
pub mod Completion
use remote.Prelude.{
  ℕ, zero, suc, ◌+◌, ◌-◌, List, [], ◌∷◌, ◌++◌, Bool, true, false, not, ◌&&◌, ◌||◌, ltb, leb, ◌==◌,
  Option, none, some, if◌then◌else◌, length, replicate, get_elem?, set,
}
use remote.Proto.Payload.{Payload}
use remote.Video.Reassembly.Table.{find, remove, add, replace}

abbrev pub fragment_timeout_ms : ℕ
fragment_timeout_ms = 400

abbrev pub max_partial_frames : ℕ
max_partial_frames = 16

pub record ReassemblyStats : Type 0 where
  pub fragments : ℕ
  pub completed : ℕ
  pub incomplete : ℕ
  pub stale : ℕ
  pub inconsistent : ℕ

pub data FrameKind : Type 0 where
  keyframe ltr_recovery delta : FrameKind

pub record EncodedFrame : Type 0 where
  pub bytes : List ℕ
  pub kind : FrameKind
  pub pts_us : ℕ
  pub sequence : ℕ
  pub temporal_layer : ℕ
  pub ltr_index : Option ℕ
  pub qp : Option ℕ

pub record Partial : Type 0 where
  pub kind : ℕ
  pub temporal_layer : ℕ
  pub pts_us : ℕ
  pub slots : List (Option (List ℕ))
  pub filled : ℕ
  pub first_seen_ms : ℕ

abbrev pub is_complete : Partial → Bool
is_complete p = p.filled == length p.slots

-- `for slot in self.slots.into_iter().flatten()`.
abbrev pub flatten : List (Option (List ℕ)) → List ℕ
flatten [] = []
flatten (none ∷ slots) = flatten slots
flatten (some bytes ∷ slots) = bytes ++ flatten slots

abbrev pub frame_kind : ℕ → FrameKind
frame_kind k =
    if k == 1
    then FrameKind.keyframe
    else if k == 2
    then FrameKind.ltr_recovery
    else FrameKind.delta

unfoldable pub assemble : Partial → EncodedFrame
assemble p = record {
  bytes = flatten p.slots;
  kind = frame_kind p.kind;
  pts_us = p.pts_us;
  sequence = 0;
  temporal_layer = p.temporal_layer;
  ltr_index = none;
  qp = none;
}

pub record Reassembler : Type 0 where
  pub partials : List (ℕ × Partial)
  pub stats : ReassemblyStats

abbrev pub new : Reassembler
new = record {
  partials = [];
  stats = record { fragments = 0; completed = 0; incomplete = 0; stale = 0; inconsistent = 0 };
}

abbrev pub in_flight : Reassembler → ℕ
in_flight r = length r.partials

-- `None`, `Some(frame)`, or the panic of an index outside the slots.
pub data Outcome : Type 0 where
  nothing panicked : Outcome
  frame : EncodedFrame → Outcome

-- `self.partials.remove(&id); self.stats.incomplete += 1`.
unfoldable pub abandon : Reassembler → ℕ → Reassembler
abandon r id = record {
  partials = remove id r.partials;
  stats = record (r.stats) { incomplete = r.stats.incomplete + 1 };
}

-- The loop of `expire`, over the ids it collected.
unfoldable pub abandon_each : Reassembler → List ℕ → Reassembler
abandon_each r [] = r
abandon_each r (id ∷ ids) = abandon_each (abandon r id) ids

-- `saturating_sub` is the subtraction of ℕ.
unfoldable pub expired_ids : List (ℕ × Partial) → ℕ → List ℕ
expired_ids [] now_ms = []
expired_ids ((id, p) ∷ rest) now_ms =
    let more = expired_ids rest now_ms in
    if ltb fragment_timeout_ms (now_ms - p.first_seen_ms) then id ∷ more else more

unfoldable pub expire : Reassembler → ℕ → Reassembler
expire r now_ms = abandon_each r (expired_ids r.partials now_ms)

-- `min_by_key(|(_, p)| p.first_seen_ms)`: the first of the smallest.
unfoldable pub oldest : ℕ → ℕ → List (ℕ × Partial) → ℕ
oldest id seen [] = id
oldest id seen ((j, p) ∷ rest) =
    let here = oldest j p.first_seen_ms rest in
    let kept = oldest id seen rest in if ltb p.first_seen_ms seen then here else kept

-- The `while` loop; each round removes an entry, so as many rounds as entries are enough.
unfoldable pub evict : ℕ → Reassembler → Reassembler
evict zero r = r
evict (suc n) r = elim r.partials [
  | [] ↦ r
  | (id, p) ∷ rest ↦
      let next = evict n (abandon r (oldest id p.first_seen_ms rest)) in
      if ltb max_partial_frames (length r.partials) then next else r
]

-- From `entry.is_complete()` on.
unfoldable pub store : Reassembler → ℕ → Partial → Reassembler × Outcome
store r id p =
    if is_complete p
    then (
      record {
        partials = remove id r.partials;
        stats = record (r.stats) { completed = r.stats.completed + 1 };
      },
      Outcome.frame (assemble p),
    )
    else (let kept = record r { partials = replace id p r.partials } in
        (evict (length kept.partials) kept, Outcome.nothing))

-- The checks on the entry `p` and its slot.
unfoldable pub fill : Reassembler → ℕ → Partial → ℕ → ℕ → ℕ → List ℕ → Reassembler × Outcome
fill r id p index count pts_us bytes =
    if not (length p.slots == count) || not (p.pts_us == pts_us)
    then (
      record r { stats = record (r.stats) { inconsistent = r.stats.inconsistent + 1 } },
      Outcome.nothing,
    )
    else elim (get_elem? p.slots index) [
      | none ↦ (r, Outcome.panicked)
      | some slot ↦ elim slot [
        | some old ↦
            (record r { stats = record (r.stats) { stale = r.stats.stale + 1 } }, Outcome.nothing)
        | none ↦
            store r id (record p { slots = set p.slots index (some bytes); filled = p.filled + 1 })
      ]
    ]

abbrev pub fresh : ℕ → ℕ → ℕ → ℕ → ℕ → Partial
fresh count kind temporal_layer pts_us now_ms = record {
  kind = kind;
  temporal_layer = temporal_layer;
  pts_us = pts_us;
  slots = replicate count none;
  filled = 0;
  first_seen_ms = now_ms;
}

unfoldable pub accept_fragment :
    Reassembler → ℕ → ℕ → ℕ → ℕ → ℕ → ℕ → List ℕ → ℕ → Reassembler × Outcome
accept_fragment r id index count kind temporal_layer pts_us bytes now_ms =
    elim (find id r.partials) [
      | some p ↦ fill r id p index count pts_us bytes
      | none ↦
          let p = fresh count kind temporal_layer pts_us now_ms in
          let single = record p { slots = some bytes ∷ []; filled = 1 } in
          if count == 1
          then (
            record r { stats = record (r.stats) { completed = r.stats.completed + 1 } },
            Outcome.frame (assemble single),
          )
          else fill (record r { partials = add id p r.partials }) id p index count pts_us bytes
    ]

unfoldable pub accept : Reassembler → Payload → ℕ → Reassembler × Outcome
accept r (Payload.video_frame id index count kind temporal_layer pts_us bytes) now_ms =
    let live = expire r now_ms in
    accept_fragment
      (record live { stats = record (live.stats) { fragments = live.stats.fragments + 1 } }) id
      index count kind temporal_layer pts_us bytes now_ms
accept r _ now_ms = (r, Outcome.nothing)
