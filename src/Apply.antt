-- ===== src/Apply.antt =====
-- xrandrw/apply.py: one apply pass, from the locks and the two reads to the commands that it runs.
-- The result of a command is not looked at by the source, so a pass is the list of its commands.
pub mod Externals
pub mod Bail
pub mod Places
pub mod Commands
pub mod Lawful
use Prim.Native.String.{◌++◌ as ◌<>◌}
use xrandrw.Prelude.{
  ℕ, String, Bool, true, false, not, ◌&&◌, Option, none, some, List, [], ◌∷◌, ◌++◌, ◌==◌, contains,
  filter, string_eq, if◌then◌else◌,
}
use xrandrw.Prelude.Int.{ℤ, pos, ltb_ℤ}
use xrandrw.Prelude.Dict.{Dict, lookup}
use xrandrw.Prelude.Sort.{sort_by}
use xrandrw.Outputs.{Output, Outputs, is_lit}
use xrandrw.Policy.{is_internal_lcd, current_or_preferred_mode}
use xrandrw.Profiles.{Profile, match_profile, build_xrandr_argv}
use xrandrw.Store.{Store}
use xrandrw.Touch.{resolve_touch_remaps}
use xrandrw.Apply.Externals.{
  Command, output_off, primary_scale, auto_primary, layout, map_touch, wallpaper, place_externals,
}

-- The lock that an apply takes: refused (the path is a symlink), broken (another `OSError` of its open,
-- which is raised again), held by another apply, or taken.
pub data Lock : Type 0 where
  refused broken busy acquired : Lock

-- What a pass finds, in the order in which it reads it.
pub record Inputs : Type 0 where
  pub lock : Lock
  -- the two reads of the outputs, `none` where one raises; the second has the EDIDs
  pub first_read : Option Outputs
  pub second_read : Option Outputs
  -- the profiles of the configuration, the touch mappings and the input devices
  pub profiles : List Profile
  pub mappings : List (String × String)
  pub devices : List (ℕ × String)
  pub default_side : String
  pub hidpi_width : ℤ
  pub stored : Store
  pub now : ℕ

-- The return value, or an exception.
pub data Verdict : Type 0 where
  completed bailed raised : Verdict

-- The verdict, the commands in their order, and what was saved, where it was.
pub record Pass : Type 0 where
  pub verdict : Verdict
  pub commands : List Command
  pub saved : Option Store

abbrev pub bail : Pass
bail = record { verdict = bailed; commands = []; saved = none }

-- An exception before anything is run.
abbrev pub crash : Pass
crash = record { verdict = raised; commands = []; saved = none }

unfoldable pub scrub_stale : Outputs → List Command
unfolding is_lit
scrub_stale [] = []
scrub_stale ((connector, o) ∷ outs) =
    let rest = scrub_stale outs in
    if o.connected then rest else if not (is_lit o) then rest else output_off connector ∷ rest

-- `[o for o in outs.values() if o.connected]`
abbrev pub connected_of : Outputs → List Output
connected_of [] = []
connected_of ((_, o) ∷ outs) =
    let rest = connected_of outs in if o.connected then o ∷ rest else rest

abbrev pub names_of : List Output → List String
names_of [] = []
names_of (o ∷ os) = o.name ∷ names_of os

abbrev pub by_name : List Output → List Output
by_name = sort_by (λ (o : Output). o.name)

abbrev pub others : String → List Output → List Output
others name os = filter (λ (o : Output). not (o.name == name)) os

-- The scale of an internal panel.
abbrev pub scale_of : ℤ → Output → String
scale_of hidpi_width o =
    let width : ℤ = elim (current_or_preferred_mode o) [ none ↦ pos 0 | some (w, h) ↦ w ] in
    if ltb_ℤ width hidpi_width then "1x1" else "0.5x0.5"

-- The primary, with the command that makes it one: the first internal panel, else the first output.
abbrev pub pick : ℤ → List Output → List Output → Option (Output × Command)
pick hidpi_width (panel ∷ _) _ = some (panel, primary_scale panel.name (scale_of hidpi_width panel))
pick hidpi_width [] (o ∷ _) = some (o, auto_primary o.name)
pick hidpi_width [] [] = none

abbrev pub primary_of : ℤ → List Output → Option (Output × Command)
primary_of hidpi_width connected =
    pick hidpi_width (by_name (filter (λ (o : Output). is_internal_lcd o.name) connected))
      (by_name connected)

abbrev pub touches : List (ℕ × String) → List Command
touches [] = []
touches ((did, output) ∷ more) = map_touch did output ∷ touches more

abbrev pub locked : Lock → Pass → Pass
locked refused pass = bail
locked broken pass = crash
locked busy pass = bail
locked acquired pass = pass

module _ (new_profile_id : String → String) (is_part_of : String → String → Bool) where
  abbrev pub remap : Inputs → List Output → List Command
  remap i connected =
      touches (resolve_touch_remaps is_part_of i.mappings i.devices (names_of connected))

  -- The end of a pass behind the placement.
  unfoldable pub finish : Inputs → List Output → List Command → Option (Store × List Command) → Pass
  finish i connected done none = record { verdict = raised; commands = done; saved = none }
  finish i connected done (some (st, placed)) = record {
    verdict = completed;
    commands = done ++ (placed ++ (wallpaper ∷ remap i connected));
    saved = some st;
  }

  -- The span under the state lock.
  unfoldable pub place :
      Inputs → Outputs → List Output → List Command → Option (Output × Command) → Pass
  unfolding finish place_externals
  place i outs connected scrubbed none = record {
    verdict = raised;
    commands = scrubbed;
    saved = none;
  }
  place i outs connected scrubbed (some (primary, command)) =
      finish i connected (scrubbed ++ command ∷ []) (
        place_externals new_profile_id i.stored (others primary.name connected) primary.name
          i.default_side outs i.now)

  -- A profile of the configuration that matches comes before the placement.
  unfoldable pub by_profile : Inputs → Outputs → List Output → List Command → Option Profile → Pass
  unfolding place resolve_touch_remaps
  by_profile i outs connected scrubbed none =
      place i outs connected scrubbed (primary_of i.hidpi_width connected)
  by_profile i outs connected scrubbed (some p) = record {
    verdict = completed;
    commands = scrubbed ++ (layout p ∷ wallpaper ∷ remap i connected);
    saved = none;
  }

  unfoldable pub by_connected : Inputs → Outputs → List Command → List Output → Pass
  unfolding by_profile match_profile
  by_connected i outs scrubbed [] = record {
    verdict = completed;
    commands = scrubbed ++ wallpaper ∷ [];
    saved = none;
  }
  by_connected i outs scrubbed (o ∷ os) =
      by_profile i outs (o ∷ os) scrubbed (match_profile (names_of (o ∷ os)) i.profiles)

  -- A pass over the outputs of the second read.
  unfoldable pub arrange : Inputs → Outputs → Pass
  unfolding scrub_stale by_connected
  arrange i outs = by_connected i outs (scrub_stale outs) (connected_of outs)

  abbrev pub read_twice : Inputs → Option Outputs → Option Outputs → Pass
  read_twice i none _ = bail
  read_twice i (some _) none = bail
  read_twice i (some _) (some outs) = arrange i outs

  unfoldable pub apply_once : Inputs → Pass
  unfolding arrange
  apply_once i = locked i.lock (read_twice i i.first_read i.second_read)
