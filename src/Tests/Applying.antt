-- ===== src/Tests/Applying.antt =====
-- apply.py and state.py at an unplugged head that is still driven.
use xrandrw.Prelude.{String, Bool, true, ◌≡◌, refl, none, some, [], ◌∷◌, All, string_eq}
use xrandrw.Prelude.Int.{pos}
use xrandrw.Prelude.Dict.{lookup}
use xrandrw.Outputs.{Outputs}
use xrandrw.Store.{Store, ensure_profile, ident_keys}
use xrandrw.Store.Linked.{IsLinked, ensure_profile-IsLinked}
use xrandrw.Apply.{Inputs, acquired, apply_once}
use xrandrw.Apply.Bail.{Reports, both_read, apply_once-Reports}
use xrandrw.Apply.Commands.{lawful}
use xrandrw.Apply.Lawful.{apply_once-lawful}
use xrandrw.Tests.Desktop.{docked, unplugged, head}

abbrev stored : Store
stored = record {
  profiles =
      (
        "p1",
        record {
          names = some ("HDMI-1" ∷ []);
          edid = some "d15c";
          preferred_side = some "above";
          last_seen = some 1;
        },
      )
      ∷ (
        "p2",
        record {
          names = some ("DP-1" ∷ []);
          edid = none;
          preferred_side = some "below";
          last_seen = some 2;
        },
      )
      ∷ [];
  identity_map = ("edid:d15c", "p1") ∷ ("conn:HDMI-1", "p2") ∷ [];
  attach_stack = "p1" ∷ [];
}

abbrev new_id : String → String
new_id seed = seed

abbrev part_of : String → String → Bool
part_of a b = true

abbrev found : Outputs → Inputs
found outs = record {
  lock = acquired;
  first_read = some docked;
  second_read = some outs;
  profiles = [];
  mappings = ("ELAN", "eDP-1") ∷ [];
  devices = (11, "ELAN Touchscreen") ∷ [];
  default_side = "right-of";
  hidpi_width = pos 3200;
  stored = stored;
  now = 3;
}

apply_once-lawful_example :
    All (λ c. lawful unplugged c ≡ true) (apply_once new_id part_of (found unplugged)).commands
apply_once-lawful_example =
    apply_once-lawful new_id part_of (found unplugged) unplugged refl (refl, (refl, tt))
      (refl, (refl, tt))

apply_once-Reports_example :
    Reports acquired (both_read (found docked)) (apply_once new_id part_of (found docked))
apply_once-Reports_example = apply_once-Reports new_id part_of (found docked)

-- The head's EDID and its connector lead to two profiles, which are merged.
ensure_profile-IsLinked_example :
    (pid : String) × (st' : Store) × (ensure_profile new_id head stored "right-of" 3
      ≡ some (pid, st'))
    × IsLinked st'
    × All (λ k. lookup k st'.identity_map ≡ some pid) (ident_keys head)
unfolding lookup
ensure_profile-IsLinked_example =
    ensure_profile-IsLinked new_id head stored "right-of" 3 (refl, (refl, tt))
