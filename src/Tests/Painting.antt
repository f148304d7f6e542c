-- ===== src/Tests/Painting.antt =====
-- wallpaper.py on a machine with two programs, of which the first fails.
use xrandrw.Prelude.{
  ℕ, String, true, false, ◌≡◌, refl, List, [], ◌∷◌, ◌==◌, ◌||◌, string_eq, if◌then◌else◌,
}
use xrandrw.Prelude.Dict.{lookup}
use xrandrw.Prelude.Text.{strip}
use xrandrw.Config.{Env}
use xrandrw.Wallpaper.{
  Backend, feh, fehbg, applied, failed, Machine, configured, select_wallpaper_backend, try_backend,
  apply_wallpaper,
}
use xrandrw.Wallpaper.Chain.{Follows, expected, apply_wallpaper-Follows}

abbrev run : List String → ℕ → ℕ × ℕ
run [] w = (127, w)
run (program ∷ args) w = (if program == "feh" then 0 else 1, w)

abbrev machine : Machine
machine = record {
  World = ℕ;
  which = λ p. (p == "feh") || (p == "fehbg");
  is_file = λ p. true;
  has_pil = false;
  run = run;
  draw = λ p w. (true, w);
}

abbrev env : Env
env = ("WALL", "/w.jpg") ∷ ("WALLPAPER_ENGINE", "") ∷ []

second_tried : (apply_wallpaper machine env 0).0 ≡ (fehbg, failed) ∷ (feh, applied) ∷ []
unfolding apply_wallpaper try_backend lookup configured strip
second_tried = refl

apply_wallpaper-Follows_example :
    Follows (expected machine env) (apply_wallpaper machine env 0).0
    × ((rest : List Backend) × (expected machine env
          ≡ select_wallpaper_backend env false true true ∷ rest))
apply_wallpaper-Follows_example = apply_wallpaper-Follows machine env 0
