-- ===== src/Tests/Spelling.antt =====
-- profiles.py at a layout of a panel and a head above it.
use xrandrw.Prelude.{String, true, false, ◌≡◌, refl, none, some, [], ◌∷◌}
use xrandrw.Prelude.Int.{pos, negsuc}
use xrandrw.Prelude.Text.{is_char, show_int, split_by}
use xrandrw.Profiles.{OutputSpec}
use xrandrw.Profiles.Parse.{
  parse_profile, parse_all_profiles, after_prefix, parse_spec, parse_specs,
}
use xrandrw.Profiles.Parse.Pieces.{IsPlain, IsSpec, numbers, beside}
use xrandrw.Profiles.Parse.Spelled.{layout_text, parse_profile-layout_text}
use xrandrw.Prelude.Text.Cuts.{is_free, is_free-Free}

abbrev base : OutputSpec
base = record {
  connector = "eDP-1";
  mode = "1920x1200";
  primary = true;
  pos = some (show_int (pos 0), show_int (negsuc 9));
  rel = none;
  scale = "1x1";
  rotate = none;
}

abbrev above : OutputSpec
above = record {
  connector = "HDMI-1";
  mode = "auto";
  primary = false;
  pos = none;
  rel = some ("above", "eDP-1");
  scale = "2x2";
  rotate = some "left";
}

plain : (s : String) → is_free (is_char b':') s ≡ true → is_free (is_char b';') s ≡ true → IsPlain s
plain s h k = (is_free-Free (is_char b':') s h, is_free-Free (is_char b';') s k)

base-IsSpec : IsSpec base
base-IsSpec = record {
  connector_named = refl;
  connector_plain = plain "eDP-1" refl refl;
  mode_named = refl;
  mode_plain = plain "1920x1200" refl refl;
  placed = numbers (pos 0) (negsuc 9);
  scale_plain = plain "1x1" refl refl;
  rotate_plain = tt;
}

above-IsSpec : IsSpec above
above-IsSpec = record {
  connector_named = refl;
  connector_plain = plain "HDMI-1" refl refl;
  mode_named = refl;
  mode_plain = plain "auto" refl refl;
  placed = beside "above" "eDP-1" refl refl (plain "eDP-1" refl refl);
  scale_plain = plain "2x2" refl refl;
  rotate_plain = plain "left" refl refl;
}

parse_profile-layout_text_example :
    parse_profile "desk" (layout_text base (above ∷ []))
    ≡ some (record { name = "desk"; specs = base ∷ above ∷ [] })
parse_profile-layout_text_example =
    parse_profile-layout_text "desk" base (above ∷ []) (base-IsSpec, (above-IsSpec, tt))

-- A malformed layout is left out, and so is what is no layout.
parsed_all : parse_all_profiles (("WALL", "w.jpg") ∷ ("LAYOUT_bad", "eDP-1:auto") ∷ []) ≡ []
unfolding parse_all_profiles after_prefix parse_profile split_by parse_specs parse_spec
parsed_all = refl
