-- ===== src/Tests/Watching.antt =====
-- watch.py at a wakeup that finds an unplugged head.
use xrandrw.Prelude.{
  ℕ, ◌+◌, ◌≤◌, String, true, false, ◌≡◌, refl, none, some, List, [], ◌∷◌, All, arith, nat_beq, leb,
  if◌then◌else◌, nat_eq,
}
use xrandrw.Outputs.{Part}
use xrandrw.Apply.{completed}
use xrandrw.Watch.{hold, absorb, apply_if_changed, debounce_ms_for_churn}
use xrandrw.Watch.Seam.{Churn, Seams, State}
use xrandrw.Watch.Loop.{Wake, signal, x_readable, loop}
use xrandrw.Watch.Loop.Runs.{IsRun, wakeups, loop-IsRun}
use xrandrw.Watch.Wakeup.{Ended, apply_if_changed-Ended}
use xrandrw.Watch.Bounds.{
  IsClock, debounce_ms_for_churn_bounds, after_dark, absorb-bounded, hold-enough,
}
use xrandrw.Tests.Desktop.{undocked}

-- A head of which the digest tells how many parts there are; the clock is the world.
abbrev digest : List Part → String
digest [] = "none"
digest (_ ∷ []) = "one"
digest (_ ∷ _ ∷ _) = "two"

abbrev daemon : Seams
daemon = record {
  World = ℕ;
  monotonic = λ t. (t, t);
  sleep = λ ms t. t + ms;
  wait = λ ms t. (false, t + ms);
  read = λ t. (some undocked, t);
  apply_once = λ t. (completed, t);
  digest = digest;
  on_settled = some (λ t. t);
}

abbrev quiet : Churn
quiet = record {
  times = [];
  backoff = 0;
  window = 20000;
  threshold = 4;
  apply_done_at = none;
  present = none;
  unhealed = 0;
}

abbrev start : State ℕ
start = record { churn = quiet; world = 1000; trace = [] }

apply_if_changed-Ended_example :
    let (r, s') = apply_if_changed daemon 3000 5000 "two" start in Ended "two" [] r s'.trace
apply_if_changed-Ended_example = apply_if_changed-Ended daemon 3000 5000 "two" start

debounce_ms_for_churn_bounds_example :
    let (ms, next) = debounce_ms_for_churn 1000 quiet in
    (150 ≤ ms)
    × (ms ≤ 1150)
    × (next.backoff ≤ 1000)
    × All (λ t. leb 1000 (t + 20000) ≡ true) next.times
debounce_ms_for_churn_bounds_example = debounce_ms_for_churn_bounds 1000 quiet (omega arith)

absorb-bounded_example :
    (absorb daemon "two" "one"
      ("HDMI-1" ∷ [])
      (after_dark daemon "two" "one" "HDMI-1" [] 3 start)).0
    ≡ some (if nat_beq 3 3 then "one" else "two")
absorb-bounded_example = absorb-bounded daemon "two" "one" "HDMI-1" [] 3 start (omega arith)

abbrev ticks : IsClock daemon
ticks = record {
  clock = λ t. t;
  shown = λ t. refl;
  after_monotonic = λ t. omega arith;
  after_read = λ t. omega arith;
  after_wait = λ ms t. omega arith;
}

hold-enough_example : (hold daemon 3000 4000 "two" start).0 ≡ (hold daemon 9000 4000 "two" start).0
hold-enough_example =
    hold-enough daemon ticks 3000 9000 4000 "two" start (omega arith) (omega arith)

-- A wakeup between two rounds that are none.
abbrev wakes : List Wake
wakes = signal ∷ x_readable true ∷ x_readable false ∷ []

loop-IsRun_example :
    let (r, s') =
      loop daemon (record { hold_ms = 3000; suspect_ms = 5000 }) true wakes "two" start in
    IsRun (wakeups true wakes) "two" [] r s'.trace
loop-IsRun_example =
    loop-IsRun daemon (record { hold_ms = 3000; suspect_ms = 5000 }) true wakes "two" start
