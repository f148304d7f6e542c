-- ===== src/Relocate/Plan.antt =====
-- relocate.py: the pure planning helpers.
pub mod Effect
use xrandrw.Prelude.{
  ℕ, Bool, true, false, not, ◌&&◌, Option, none, some, List, [], ◌∷◌, ◌++◌, String, ltb, ◌==◌,
  if◌then◌else◌,
}
use xrandrw.Prelude.Int.{ℤ, pos, ◌-ℤ◌}
use xrandrw.Json.{Key, nothing, number, key_eq}

-- `geometry`, a dict of the four integers that dwm reports.
pub record Geometry : Type 0 where
  pub x : ℤ
  pub y : ℤ
  pub width : ℤ
  pub height : ℤ

-- `xrandrw.windows.WindowRecord`
pub record WindowRecord : Type 0 where
  pub xid : ℤ
  pub pid : ℤ
  pub starttime : ℤ
  pub comm : String
  pub cmdline : Option String
  pub output : Option String
  pub edid : Option String
  pub monitor_number : ℤ
  pub tags : ℤ
  pub is_floating : Bool
  pub is_fullscreen : Bool
  pub geometry : Geometry

-- The namespace that `_resolve_live` builds; `None` is `nothing`.
pub record Live : Type 0 where
  pub target_monitor : Key
  pub current_monitor : Key
  pub current_floating : Bool
  pub n_monitors : ℕ

-- A verb with its argument.
pub data Action : Type 0 where
  tagmon : ℤ → Action
  tag : ℤ → Action
  togglefloating : Action
  configure : Geometry → Action

-- `k in range(n)`
abbrev in_range : Key → ℕ → Bool
in_range (number (pos k)) n = ltb k n
in_range _ n = false

unfoldable pub tagmon_direction : Key → Key → ℕ → Option ℤ
tagmon_direction cur_num target_num n_monitors =
    if ltb n_monitors 2
    then none
    else if not (in_range target_num n_monitors)
    then none
    else if cur_num == target_num
    then none
    else some (pos 1)

abbrev pub plan_move : Live → List Action
plan_move live =
    if not (live.target_monitor == nothing) && not (live.target_monitor == live.current_monitor)
    then elim (tagmon_direction live.current_monitor live.target_monitor live.n_monitors) [
      | none ↦ []
      | some direction ↦ tagmon direction ∷ []
    ]
    else []

abbrev pub bool_ne : Bool → Bool → Bool
bool_ne true b = not b
bool_ne false b = b

unfoldable pub plan_restore : WindowRecord → Live → List Action
unfolding tagmon_direction
plan_restore rec live =
    plan_move live
    ++ (tag rec.tags
        ∷ ((if bool_ne live.current_floating rec.is_floating then togglefloating ∷ [] else [])
            ++ (if rec.is_floating then configure rec.geometry ∷ [] else [])))

unfoldable pub to_monitor_relative_geometry : Geometry → ℤ × ℤ → Geometry
to_monitor_relative_geometry g origin = record {
  x = g.x -ℤ origin.0;
  y = g.y -ℤ origin.1;
  width = g.width;
  height = g.height;
}
