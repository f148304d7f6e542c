-- ===== src/Cli/Seed.antt =====
-- xrandrw/cli.py: `_seeded_coordinator`, the bounded wait for dwm-ipc at boot and the first settle.
pub mod Probes
pub mod Unplug
use xrandrw.Prelude.{ℕ, zero, suc, max, Bool, true, false, none, [], if◌then◌else◌}
use xrandrw.Json.{Result, ok, unavailable, raised}
use xrandrw.Relocate.Seam.{Seams, Coordinator, State, available}
use xrandrw.Relocate.Cycle.{on_settled}

-- `RelocationCoordinator()`
abbrev pub new_coordinator : Coordinator
new_coordinator = record {
  displaced = [];
  snapshot = [];
  snapshot_focus = none;
  focus_calls = 0;
  prev_present = none;
}

abbrev pub is_up : Result Bool → Bool
is_up (ok b) = b
is_up unavailable = false
is_up raised = false

-- `delay` stands for `time.sleep(delay)`.
module _ (S : Seams) (delay : S.World → S.World) where
  -- The loop over the retries.
  unfoldable pub wait_for_endpoint : ℕ → State S.World → State S.World
  wait_for_endpoint zero s = s
  wait_for_endpoint (suc n) s =
      let (up, s') = available S s in
      let (stopping, w) = S.is_stopping s'.world in
      let rest = wait_for_endpoint n (record s' { world = delay w }) in
      if is_up up then s' else if stopping then record s' { world = w } else rest

  unfoldable pub seeded_coordinator : Bool → ℕ → S.World → State S.World
  unfolding wait_for_endpoint
  seeded_coordinator config_enabled retries world =
      let s : State S.World = record { coordinator = new_coordinator; world = world; trace = [] } in
      let waited = wait_for_endpoint (max 1 retries) s in
      (on_settled S config_enabled (if config_enabled then waited else s)).1
