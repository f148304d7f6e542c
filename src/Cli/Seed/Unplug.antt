-- ===== src/Cli/Seed/Unplug.antt =====
-- The settle that directly follows the boot seed of cli.py (relocate.py, `on_settled`).
use xrandrw.Prelude.{
  ℕ, zero, suc, max, ◌<◌, String, true, false, ◌≡◌, refl, ◌∙◌, sym, ap, Option, none, some, List,
  [], arith,
}
use mathlib.Core.Path.{subst}
use xrandrw.Prelude.Dict.{lookup, DistinctKeys}
use xrandrw.Json.{ok}
use xrandrw.Outputs.{Outputs}
use xrandrw.Relocate.Plan.{WindowRecord}
use xrandrw.Relocate.Seam.{Seams, Identity, identity_eq, Coordinator, State, available, request}
use xrandrw.Relocate.Cycle.{on_settled, settle, lit_names, on_output, difference}
use xrandrw.Relocate.Cycle.Settled.{settle-records_displaced}
use xrandrw.Relocate.Cycle.Snapshot.{refresh_snapshot-DistinctKeys}
use xrandrw.Cli.Seed.{new_coordinator, is_up, wait_for_endpoint, seeded_coordinator}
use xrandrw.Cli.Seed.Probes.{available-state, Run, gated, behind_read}

module _ (S : Seams) (delay : S.World → S.World) where
  abbrev pub fresh : S.World → State S.World
  fresh w = record { coordinator = new_coordinator; world = w; trace = [] }

  -- dwm-ipc answers a probe and the next one, and the outputs behind it are read.
  abbrev Answers : Outputs → State S.World → Type 0
  Answers outs s = ((available S s).0 ≡ ok true) × ((S.read (available S s).1.world).0 ≡ some outs)

  -- dwm-ipc fails so many probes, with no request to stop, and answers from then on.
  abbrev pub AnswersAfter : Outputs → ℕ → State S.World → Type 0
  AnswersAfter outs zero s = ((available S s).0 ≡ ok true) × Answers outs (available S s).1
  AnswersAfter outs (suc n) s =
      let (up, s') = available S s in
      let (stopping, w) = S.is_stopping s'.world in
      (is_up up ≡ false) × (stopping ≡ false) × AnswersAfter outs n (record s' { world = delay w })

  coordinator-available : (s : State S.World) → (available S s).1.coordinator ≡ s.coordinator
  unfolding request
  coordinator-available s = ap (λ (t : State S.World). t.coordinator) (available-state S s)

  wait-Answers :
      (outs : Outputs) (n m : ℕ) (s : State S.World)
      → n < m
      → AnswersAfter outs n s
      → let s' = wait_for_endpoint S delay m s in Answers outs s' × (s'.coordinator ≡ s.coordinator)
  unfolding wait_for_endpoint
  wait-Answers outs n zero s le a = ground arith
  wait-Answers outs zero (suc m) s le (up, a) = rw up (a, coordinator-available s)
  wait-Answers outs (suc n) (suc m) s le (down, on, a) =
      let asked : State S.World = (available S s).1 in
      let w = (S.is_stopping asked.world).1 in
      let (b, same) =
        wait-Answers outs n m (record asked { world = delay w }) (omega (arith, le)) a in
      rw (down, on) (b, same ∙ coordinator-available s)

  on_settled-settle :
      (outs : Outputs) (s : State S.World)
      → Answers outs s
      → on_settled S true s
        ≡ settle S s.prev_present outs
            (record (available S s).1 { world = (S.read (available S s).1.world).1 })
  unfolding on_settled
  on_settled-settle outs s (up, readable) =
      let asked : State S.World = (available S s).1 in
      let (found, w) = S.read asked.world in
      let read : State S.World = record asked { world = w } in
      let later : Outputs → Run S.World = λ o. settle S s.prev_present o read in
      ap (λ u. gated u (behind_read found later read) asked) up
      ∙ ap (λ o. behind_read o later read) readable

  -- The first settle of a coordinator.
  settle-first :
      (prev : Option (List String)) (outs : Outputs) (s : State S.World)
      → prev ≡ none
      → s.coordinator ≡ new_coordinator
      → let s' = (settle S prev outs s).1 in
        (s'.prev_present ≡ some (lit_names outs)) × (s'.displaced ≡ []) × DistinctKeys s'.snapshot
  unfolding settle
  settle-first prev outs s e new =
      let seen : State S.World = record s {
        coordinator = record s.coordinator { prev_present = some (lit_names outs) };
      } in
      let empty : s.snapshot ≡ [] = ap (λ (c : Coordinator). c.snapshot) new in
      rw e (
        refl,
        ap (λ (c : Coordinator). c.displaced) new,
        refresh_snapshot-DistinctKeys S seen (subst (λ d. DistinctKeys d) (sym empty) tt),
      )

  on_settled-first :
      (outs : Outputs) (s : State S.World)
      → Answers outs s
      → s.coordinator ≡ new_coordinator
      → let s' = (on_settled S true s).1 in
        (s'.prev_present ≡ some (lit_names outs)) × (s'.displaced ≡ []) × DistinctKeys s'.snapshot
  on_settled-first outs s a new =
      let read : State S.World = record (available S s).1 {
        world = (S.read (available S s).1.world).1;
      } in
      rw (on_settled-settle outs s a) (
        settle-first s.prev_present outs read (ap (λ (c : Coordinator). c.prev_present) new)
          (coordinator-available s ∙ new))

  -- Where dwm-ipc answers at one of the probes of the boot seed and the outputs are then read, the
  -- settle that directly follows the seed leaves every window that the seed's snapshot holds on an
  -- output which was lit at the seed, and which this settle finds dark, among the displaced ones, under
  -- the snapshot's record.
  pub settle-seeded_coordinator :
      (retries n : ℕ) (w : S.World) (outs later : Outputs) (k : Identity) (rec : WindowRecord)
      → n < max 1 retries
      → AnswersAfter outs n (fresh w)
      → lookup k (seeded_coordinator S delay true retries w).snapshot ≡ some rec
      → on_output (difference (lit_names outs) (lit_names later)) rec ≡ true
      → let s = seeded_coordinator S delay true retries w in
        lookup k (settle S s.prev_present later s).1.displaced ≡ some rec
  unfolding seeded_coordinator
  settle-seeded_coordinator retries n w outs later k rec le a found gone =
      let waited : State S.World = wait_for_endpoint S delay (max 1 retries) (fresh w) in
      let s : State S.World = (on_settled S true waited).1 in
      let (answers, new) = wait-Answers outs n (max 1 retries) (fresh w) le a in
      let (seen, empty, unique) = on_settled-first outs waited answers new in
      subst (λ p. lookup k (settle S p later s).1.displaced ≡ some rec) (sym seen)
        (settle-records_displaced S (lit_names outs) later s k rec unique
          (subst (λ d. DistinctKeys d) (sym empty) tt) found gone)
