-- ===== src/Tests/Matching.antt =====
-- windows.py on a monitor whose head is unplugged and still driven.
use xrandrw.Prelude.{true, false, not, ◌&&◌, ◌≡◌, refl, some, any, ◌==◌, string_eq, String}
use xrandrw.Prelude.Int.{pos}
use xrandrw.Prelude.Dict.{lookup}
use xrandrw.Json.{int}
use xrandrw.Outputs.{Output, is_lit}
use xrandrw.Windows.{candidates, connector_of, fits}
use xrandrw.Windows.Match.{connector_of_sound}
use xrandrw.Tests.Desktop.{unplugged}

matched :
    connector_of unplugged (int (pos 1920)) (int (pos 0)) (int (pos 1600)) (int (pos 900))
    ≡ some "HDMI-1"
unfolding connector_of candidates
matched = refl

connector_of_sound_example :
    (o : Output) × (lookup "HDMI-1" unplugged ≡ some o)
    × (fits (pos 1920) (pos 0) (pos 1600) (pos 900) o ≡ true)
    × (is_lit o ≡ true)
    × (any
          (λ (e : String × Output).
            fits (pos 1920) (pos 0) (pos 1600) (pos 900) e.1
            && (e.1.connected && not (e.0 == "HDMI-1")))
          unplugged
        ≡ false)
connector_of_sound_example =
    connector_of_sound unplugged (pos 1920) (pos 0) (pos 1600) (pos 900) "HDMI-1" (refl, (refl, tt))
      matched
