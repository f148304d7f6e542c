-- ===== src/Tests/Booting.antt =====
-- The boot seed of cli.py where dwm-ipc comes up at the second probe.
use xrandrw.Prelude.{
  ℕ, zero, suc, max, ◌+◌, true, false, ◌≡◌, refl, none, some, List, [], ◌∷◌, string_eq, arith,
}
use xrandrw.Prelude.Int.{pos}
use xrandrw.Prelude.Dict.{lookup, insert}
use xrandrw.Json.{Json, Result, unavailable}
use xrandrw.Ipc.{Message, get_monitors, get_dwm_client, validate_monitors}
use xrandrw.Relocate.Seam.{Look, monitors_asked, client_asked, Seams, identity_eq, available, ◌>>=◌}
use xrandrw.Relocate.Cycle.{on_output, difference, lit_names, settle, on_settled, refresh_snapshot}
use xrandrw.Cli.Seed.{seeded_coordinator}
use xrandrw.Cli.Seed.Probes.{IsSeeded, seeded_coordinator-OnlyProbes}
use xrandrw.Cli.Seed.Unplug.{AnswersAfter, fresh, settle-seeded_coordinator}
use xrandrw.Tests.Desktop.{docked, undocked, window, identity, answer, desktop}

abbrev late : Message → ℕ → Result Json × ℕ
late m zero = (unavailable, zero)
late m (suc n) = answer m (suc n)

-- The capture asks for the monitors and for the window.
abbrev looks : ℕ → List Look
looks w =
    client_asked (pos 7) (late (get_dwm_client (pos 7)) w).0
    ∷ monitors_asked (late get_monitors w).0
    ∷ []

abbrev booting : Seams
booting = record desktop {
  request = late;
  capture = λ w. (record { looks = looks w; observed = none; records = some (window ∷ []) }, w);
}

abbrev delay : ℕ → ℕ
delay w = w + 1

seeded_coordinator-OnlyProbes_example :
    let s = seeded_coordinator booting delay true 20 0 in
    IsSeeded booting (max 1 20 + 1) s × (true ≡ false → (s.trace ≡ []) × (s.world ≡ 0))
seeded_coordinator-OnlyProbes_example = seeded_coordinator-OnlyProbes booting delay true 20 0

answers : AnswersAfter booting delay docked 1 (fresh booting delay 0)
unfolding available ◌>>=◌ validate_monitors
answers = (refl, refl, (refl, (refl, refl)))

held : lookup identity (seeded_coordinator booting delay true 20 0).snapshot ≡ some window
unfolding seeded_coordinator on_settled available ◌>>=◌ validate_monitors lookup insert settle
    refresh_snapshot
held = refl

gone : on_output (difference (lit_names docked) (lit_names undocked)) window ≡ true
unfolding lit_names
gone = refl

settle-seeded_coordinator_example :
    let s = seeded_coordinator booting delay true 20 0 in
    lookup identity (settle booting s.prev_present undocked s).1.displaced ≡ some window
settle-seeded_coordinator_example =
    settle-seeded_coordinator booting delay 20 1 0 docked undocked identity window (omega arith)
      answers held gone
