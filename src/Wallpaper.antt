-- ===== src/Wallpaper.antt =====
-- xrandrw/wallpaper.py: the choice of a backend, the chain of backends and the tries. The programs,
-- the files and the drawing by Xlib are parameters.
pub mod Chain
use xrandrw.Prelude.{
  ℕ, zero, String, Bool, true, false, not, ◌&&◌, Option, none, some, List, [], ◌∷◌, ◌++◌, ◌==◌,
  string_eq, nat_eq, if◌then◌else◌,
}
use xrandrw.Prelude.Dict.{lookup}
use xrandrw.Prelude.Text.{strip, is_empty}
use xrandrw.Config.{Env, eq_lower}

pub data Backend : Type 0 where
  feh fehbg xwallpaper native : Backend

-- `env.get(k, "")`
abbrev pub value : String → Env → String
value k env = elim (lookup k env) [ none ↦ "" | some v ↦ v ]

abbrev pub engine_of : String → Option Backend
engine_of eng =
    if eq_lower eng "feh"
    then some feh
    else if eq_lower eng "fehbg"
    then some fehbg
    else if eq_lower eng "xwallpaper"
    then some xwallpaper
    else if eq_lower eng "native"
    then some native
    else none

-- The engine that the user names, if it is one.
unfoldable pub configured : Env → Option Backend
configured env = engine_of (strip (value "WALLPAPER_ENGINE" env))

-- `env.get("USE_XWALLPAPER") == "1"`
abbrev pub prefers_xwallpaper : Env → Bool
prefers_xwallpaper env = elim (lookup "USE_XWALLPAPER" env) [ none ↦ false | some v ↦ v == "1" ]

unfoldable pub select_wallpaper_backend : Env → Bool → Bool → Bool → Backend
select_wallpaper_backend env has_xwallpaper has_fehbg has_feh = elim (configured env) [
  | some b ↦ b
  | none ↦
      if prefers_xwallpaper env && has_xwallpaper
      then xwallpaper
      else if has_fehbg
      then fehbg
      else if has_feh
      then feh
      else native
]

-- The auto-detected chain.
abbrev pub detected : Bool → Bool → Bool → List Backend
detected xw has_fehbg has_feh =
    (if xw then xwallpaper ∷ [] else [])
    ++ ((if has_fehbg then fehbg ∷ [] else [])
        ++ ((if has_feh then feh ∷ [] else []) ++ native ∷ []))

unfoldable pub wallpaper_backend_chain : Env → Bool → Bool → Bool → List Backend
wallpaper_backend_chain env has_xwallpaper has_fehbg has_feh = elim (configured env) [
  | some b ↦ b ∷ []
  | none ↦ detected (prefers_xwallpaper env && has_xwallpaper) has_fehbg has_feh
]

-- `True`, `False` and `None` of `_try_backend`
pub data Attempt : Type 0 where
  applied failed skipped : Attempt

pub record Machine : Type 1 where
  pub World : Type 0
  pub which : String → Bool
  pub is_file : String → Bool
  pub has_pil : Bool
  -- the return code of a command, and whether the drawing raises nothing
  pub run : List String → World → ℕ × World
  pub draw : String → World → Bool × World

module _ (m : Machine) where
  -- `_run_backend`
  unfoldable pub run_backend : List String → m.World → Attempt × m.World
  run_backend cmd w = let (rc, w') = m.run cmd w in (if rc == 0 then applied else failed, w')

  unfoldable pub native_wallpaper : Env → m.World → Attempt × m.World
  native_wallpaper env w =
      let wall = value "WALL" env in
      let (drawn, w') = m.draw wall w in
      if not m.has_pil
      then (skipped, w)
      else if not (m.is_file wall)
      then (skipped, w)
      else (if drawn then applied else failed, w')

  unfoldable pub try_backend : Backend → Env → m.World → Attempt × m.World
  unfolding run_backend native_wallpaper
  try_backend xwallpaper env w =
      let wall = value "WALL" env in
      if not (m.is_file wall && m.which "xwallpaper")
      then (skipped, w)
      else run_backend ("xwallpaper" ∷ "--zoom" ∷ wall ∷ []) w
  try_backend fehbg env w =
      if not (m.which "fehbg") then (skipped, w) else run_backend ("fehbg" ∷ []) w
  try_backend feh env w =
      let wall = value "WALL" env in
      if not (m.which "feh" && m.is_file wall)
      then (skipped, w)
      else run_backend ("feh" ∷ "--no-fehbg" ∷ "--bg-fill" ∷ wall ∷ []) w
  try_backend native env w = native_wallpaper env w

  abbrev pub continue_with : Backend → Attempt → List (Backend × Attempt) → List (Backend × Attempt)
  continue_with b failed rest = (b, failed) ∷ rest
  continue_with b applied rest = (b, applied) ∷ []
  continue_with b skipped rest = (b, skipped) ∷ []

  abbrev world_after : {A : Type 0} → Attempt → A → A → A
  world_after failed now later = later
  world_after applied now later = now
  world_after skipped now later = now

  -- The loop over the chain, which ends at the first backend that does not fail.
  unfoldable pub try_chain : List Backend → Env → m.World → List (Backend × Attempt) × m.World
  try_chain [] env w = ([], w)
  try_chain (b ∷ chain) env w =
      let (attempt, w') = try_backend b env w in
      let (rest, w'') = try_chain chain env w' in
      (continue_with b attempt rest, world_after attempt w' w'')

  unfoldable pub apply_wallpaper : Env → m.World → List (Backend × Attempt) × m.World
  unfolding try_chain wallpaper_backend_chain
  apply_wallpaper env w =
      try_chain
        (wallpaper_backend_chain env (m.which "xwallpaper") (m.which "fehbg") (m.which "feh")) env w
