-- ===== src/Watch.antt =====
-- xrandrw/watch.py: the decision that each wakeup of the watch loop makes. The clock, the waits, the reads
-- of the topology, the apply and the coordinator are seams; times are in milliseconds.
pub mod Seam
pub mod Quiet
pub mod Wakeup
pub mod Loop
pub mod Bounds
use xrandrw.Prelude.{
  ℕ, zero, suc, ◌+◌, ◌-◌, ◌*◌, String, Bool, true, false, not, ◌&&◌, Option, none, some, List, [],
  ◌∷◌, ◌++◌, ◌==◌, contains, filter, string_eq, length, ltb, leb, min, if◌then◌else◌,
}
use xrandrw.Outputs.{Outputs, unhealed_outputs, connected_names}
use xrandrw.Apply.{completed, bailed, raised}
use xrandrw.Watch.Seam.{
  Churn, Effect, applied, hooked, Seams, State, M, pure, give_up, ◌>>=◌, ◌>>◌, churn_of, set_churn,
  monotonic, topology_hash, present_connectors, unhealed_connectors, sleep, wait, apply, hook,
}

abbrev pub unhealed_apply_limit : ℕ
unhealed_apply_limit = 3

-- `_debounce_ms_for_churn`, at the time that it reads
unfoldable pub debounce_ms_for_churn : ℕ → Churn → ℕ × Churn
debounce_ms_for_churn now churn =
    let times = filter (λ t. leb now (t + churn.window)) (churn.times ++ now ∷ []) in
    let backoff : ℕ =
      (if ltb churn.threshold (length times)
        then min 1000 (churn.backoff + 150)
        else churn.backoff - 50) in
    (150 + backoff, record churn { times = times; backoff = backoff })

abbrev pub is_empty {ℓ} : {A : Type ℓ} → List A → Bool
is_empty [] = true
is_empty (_ ∷ _) = false

-- `a - b` of sets
abbrev pub difference : List String → List String → List String
difference a b = filter (λ x. not (contains x b)) a

-- The gates of `_bounce_settled` on what the last apply has left: the connectors that were there, where
-- the disconnect is suspiciously recent.
abbrev pub suspects : ℕ → ℕ → ℕ → Option (List String) → Option (List String)
suspects suspect_ms now done_at none = none
suspects suspect_ms now done_at (some prev) =
    if ltb (done_at + suspect_ms) now then none else if is_empty prev then none else some prev

module _ (S : Seams) where
  -- What a round of the hold does behind its wait.
  unfoldable pub look_again : M S.World Bool → String → Bool → M S.World Bool
  look_again again last_hash stopping =
      if stopping
      then pure false
      else (topology_hash S >>= λ h. if h == last_hash then pure true else again)

  -- A round of the hold, at the time that its head has read.
  unfoldable pub hold_round : M S.World Bool → ℕ → String → ℕ → M S.World Bool
  unfolding look_again
  hold_round again deadline last_hash now =
      if leb deadline now
      then pure false
      else (monotonic S >>= λ then_.
          wait S (min 150 (deadline - then_)) >>= λ stopping. look_again again last_hash stopping)

  -- The loop of the hold: the rounds are bounded by `rounds`.
  unfoldable pub hold : ℕ → ℕ → String → M S.World Bool
  unfolding hold_round
  hold zero deadline last_hash = pure false
  hold (suc rounds) deadline last_hash =
      monotonic S >>= λ now. hold_round (hold rounds deadline last_hash) deadline last_hash now

  -- `_bounce_settled` behind its gates
  unfoldable pub hold_down : ℕ → String → Option (List String) → M S.World Bool
  unfolding hold
  hold_down hold_ms last_hash none = pure false
  hold_down hold_ms last_hash (some prev) = do
    present ← present_connectors S
    if is_empty (difference prev present)
        then pure false
        else (monotonic S >>= λ start. hold hold_ms (start + hold_ms) last_hash)

  unfoldable pub bounce_settled : ℕ → ℕ → String → M S.World Bool
  unfolding hold_down
  bounce_settled hold_ms suspect_ms last_hash = if leb hold_ms 0 then pure false else do
    churn ← churn_of
    elim churn.apply_done_at [
      | none ↦ pure false
      | some done_at ↦
          (monotonic S >>= λ now.
          hold_down hold_ms last_hash (suspects suspect_ms now done_at churn.present))
    ]

  -- The bounce baseline, where the hold-down is on.
  unfoldable pub note_baseline : ℕ → M S.World (Unit {0})
  note_baseline hold_ms = if leb hold_ms 0 then pure tt else do
    now ← monotonic S
    present ← present_connectors S
    churn ← churn_of
    set_churn (record churn { apply_done_at = some now; present = some present })

  -- Whether a settled hash is absorbed.
  unfoldable pub absorb : String → String → List String → M S.World String
  absorb last_hash settled unhealed = do
    churn ← churn_of
    let attempts : ℕ = churn.unhealed + 1
    if not (is_empty unhealed) && leb attempts unhealed_apply_limit
        then (set_churn (record churn { unhealed = attempts }) >> pure last_hash)
        else (set_churn (record churn { unhealed = 0 }) >> pure settled)

  -- Behind an apply that has completed.
  unfoldable pub settle : ℕ → String → M S.World String
  unfolding note_baseline absorb
  settle hold_ms last_hash = do
    settled ← topology_hash S
    note_baseline hold_ms
    unhealed ← unhealed_connectors S
    hook S
    absorb last_hash settled unhealed

  unfoldable pub apply_change : ℕ → String → M S.World String
  unfolding settle
  apply_change hold_ms last_hash = do
    verdict ← apply S
    elim verdict [
      | completed ↦ settle hold_ms last_hash
      | bailed ↦ pure last_hash
      | raised ↦ give_up
    ]

  -- Behind the debounce.
  unfoldable pub confirm_change : ℕ → ℕ → String → M S.World String
  unfolding bounce_settled apply_change
  confirm_change hold_ms suspect_ms last_hash = do
    verify ← topology_hash S
    if verify == last_hash
        then pure last_hash
        else (bounce_settled hold_ms suspect_ms last_hash >>= λ bounced.
            if bounced then pure last_hash else apply_change hold_ms last_hash)

  -- `_apply_if_changed`
  unfoldable pub apply_if_changed : ℕ → ℕ → String → M S.World String
  unfolding confirm_change debounce_ms_for_churn
  apply_if_changed hold_ms suspect_ms last_hash = do
    cur ← topology_hash S
    if cur == last_hash then pure last_hash else do
      now ← monotonic S
      churn ← churn_of
      let debounced = debounce_ms_for_churn now churn
      set_churn debounced.1
      sleep S debounced.0
      confirm_change hold_ms suspect_ms last_hash
