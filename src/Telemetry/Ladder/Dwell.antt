-- ===== src/Telemetry/Ladder/Dwell.antt =====
-- lib.rs, `LadderController` over a sequence of calls: how long a rung was selected before it is
-- taken.
use remote.Prelude.{
  ℕ, List, [], ◌∷◌, ◌≡◌, ◌≢◌, ◌≤◌, ◌<◌, ◌+◌, ◌-◌, ◌==◌, ◌⊎◌, ◌∙◌, leb, Option, none, some, refl,
  Bool-cases, inl, inr, arith,
}
use remote.Telemetry.Ladder.{LadderController, new, required, settle, retarget, update, select_rung}

-- What one call of `update` is given.
pub record Observation : Type 0 where
  pub bwe_bps : ℕ
  pub loss_permille : ℕ
  pub now_ms : ℕ

abbrev pub selected : Observation → ℕ
selected o = (select_rung o.bwe_bps o.loss_permille).rung

-- A new controller after a history of calls, of which the newest comes first.
unfoldable pub run : List Observation → LadderController
run [] = new
run (o ∷ older) = (update (run older) o.bwe_bps o.loss_permille o.now_ms).0

-- Every call from the one at `since` to the newest selected `target`.
abbrev pub SelectedSince : (target since : ℕ) → List Observation → Type 0
SelectedSince target since [] = ⊥
SelectedSince target since (o ∷ older) =
    (selected o ≡ target) × ((o.now_ms ≡ since) ⊎ SelectedSince target since older)

-- The delays of a controller are those of a new one.
abbrev IsDefault : LadderController → Type 0
IsDefault c = (c.demote_after_ms ≡ 2000) × (c.promote_after_ms ≡ 10000)

settle-IsDefault :
    (p : Option (ℕ × ℕ)) (c : LadderController) (target now_ms : ℕ)
    → IsDefault c
    → IsDefault (settle p c target now_ms)
unfolding settle
settle-IsDefault none c target now_ms d = d
settle-IsDefault (some (t, since)) c target now_ms d = ground (arith, d.0, d.1)

run-IsDefault : (history : List Observation) → IsDefault (run history)
unfolding run update retarget
run-IsDefault [] = (refl, refl)
run-IsDefault (o ∷ older) =
    let c = run older in
    let d = run-IsDefault older in
    elim (Bool-cases (selected o == c.current)) [
      | inl same ↦ rw same d
      | inr other ↦ rw other (settle-IsDefault c.pending c (selected o) o.now_ms d)
    ]

-- What is pending after a step: a target that was selected now, or one that was pending before and
-- is selected again.
settle_pending :
    (p : Option (ℕ × ℕ)) (c : LadderController) (target now_ms t since : ℕ)
    → p ≡ c.pending
    → (settle p c target now_ms).pending ≡ some (t, since)
    → (target ≡ t) × ((now_ms ≡ since) ⊎ (c.pending ≡ some (t, since)))
unfolding settle
settle_pending none c target now_ms t since e h = (ground arith, inl (ground arith))
settle_pending (some (u, s)) c target now_ms t since e h = elim (Bool-cases (u == target)) [
  | inl same ↦ elim (Bool-cases (leb (required c target) (now_ms - s))) [
    | inl long ↦ let gone : none ≡ some (t, since) = rw (same, long) at h in absurd cc
    | inr short ↦
        let kept : c.pending ≡ some (t, since) = rw (same, short) at h in
        let old : some (u, s) ≡ some (t, since) = e ∙ kept in (ground arith, inr kept)
  ]
  | inr other ↦
      let fresh : some (target, now_ms) ≡ some (t, since) = rw other at h in
      (ground arith, inl (ground arith))
]

-- What is pending was selected by every call since its time.
pending-SelectedSince :
    (history : List Observation) (t since : ℕ)
    → (run history).pending ≡ some (t, since)
    → SelectedSince t since history
unfolding run update retarget
pending-SelectedSince [] t since h = absurd cc
pending-SelectedSince (o ∷ older) t since h =
    let c = run older in
    elim (Bool-cases (selected o == c.current)) [
      | inl same ↦ let gone : none ≡ some (t, since) = rw same at h in absurd cc
      | inr other ↦
          let (same, from) =
            settle_pending c.pending c (selected o) o.now_ms t since refl (rw other at h) in
          (
            same,
            elim from [
              | inl now ↦ inl now
              | inr before ↦ inr (pending-SelectedSince older t since before)
            ],
          )
    ]

settle_changes :
    (p : Option (ℕ × ℕ)) (c : LadderController) (target now_ms : ℕ)
    → (settle p c target now_ms).current ≢ c.current
    → (since : ℕ) × (p ≡ some (target, since))
      × (required c target ≤ now_ms - since)
      × ((settle p c target now_ms).current ≡ target)
unfolding settle
settle_changes none c target now_ms h = absurd (h refl)
settle_changes (some (t, since)) c target now_ms h =
    (since, ground arith, ground arith, ground arith)

retarget_changes :
    (c : LadderController) (target now_ms : ℕ)
    → (retarget c target now_ms).current ≢ c.current
    → (since : ℕ) × (c.pending ≡ some (target, since))
      × (required c target ≤ now_ms - since)
      × ((retarget c target now_ms).current ≡ target)
unfolding retarget
retarget_changes c target now_ms h = elim (Bool-cases (target == c.current)) [
  | inl same ↦ absurd (h (rw same refl))
  | inr other ↦ rw other (settle_changes c.pending c target now_ms (rw other at h))
]

-- However a new controller is driven, the rung changes only to the selected one, and only when every
-- call since one at least 2000 ms earlier (to a lower quality, a higher rung) or 10000 ms earlier (to
-- a higher quality) selected it.
pub update_changes :
    (older : List Observation) (o : Observation)
    → (run (o ∷ older)).current ≢ (run older).current
    → ((run (o ∷ older)).current ≡ selected o)
      × ((since : ℕ) × SelectedSince (selected o) since (o ∷ older)
          × ((((run older).current < selected o) × (since + 2000 ≤ o.now_ms))
              ⊎ ((selected o < (run older).current) × (since + 10000 ≤ o.now_ms))))
unfolding run update required
update_changes older o h =
    let (since, waiting, long, taken) = retarget_changes (run older) (selected o) o.now_ms h in
    let (down, up) = run-IsDefault older in
    let apart : selected o ≢ (run older).current = λ e. h (taken ∙ e) in
    let selected_before = pending-SelectedSince older (selected o) since waiting in
    (taken, (since, (refl, inr selected_before), ground arith))
