-- ===== src/Profiles/Parse.antt =====
-- xrandrw/profiles.py: the texts of the LAYOUT_ keys. A ValueError is `none`.
pub mod Pieces
pub mod Spelled
use Prim.Native.Char.{code}
use Prim.Native.String
use xrandrw.Prelude.{
  String, Bool, true, false, not, ◌&&◌, ◌||◌, Option, none, some, List, [], ◌∷◌, ◌==◌, contains,
  filter, string_eq, nat_eq, if◌then◌else◌,
}
use xrandrw.Prelude.Dict.{Dict}
use xrandrw.Prelude.Partial.{◌>>=◌}
use xrandrw.Prelude.Text.{is_empty, split, partition, parse_int, show_int}
use xrandrw.Profiles.{OutputSpec, Profile}

abbrev pub sides : List String
sides = "left-of" ∷ "right-of" ∷ "above" ∷ "below" ∷ []

-- `pos` and `rel`
abbrev pub Position : Type 0
Position = Option (String × String) × Option (String × String)

abbrev pub relative : String × String → Option Position
relative (side, anchor) =
    if contains side sides && not (is_empty anchor) then some (none, some (side, anchor)) else none

abbrev pub absolute : Option (String × String) → Option Position
absolute none = none
absolute (some (x, y)) =
    parse_int x >>= λ a. parse_int y >>= λ b. some (some (show_int a, show_int b), none)

abbrev pub by_equals : String → Option (String × String) → Option Position
by_equals field none = absolute (partition b'x' field)
by_equals field (some parts) = relative parts

unfoldable pub parse_position : String → Option Position
parse_position field = by_equals field (partition b'=' field)

abbrev pub with_transform : OutputSpec → Option (String × String) → Option OutputSpec
with_transform spec none = none
with_transform spec (some (key, val)) =
    if key == "scale"
    then some (record spec { scale = val })
    else if key == "rotate"
    then some (record spec { rotate = some val })
    else none

-- The loop over the parts behind the fourth.
unfoldable pub add_transforms : OutputSpec → List String → Option OutputSpec
add_transforms spec [] = some spec
add_transforms spec (transform ∷ transforms) =
    with_transform spec (partition b'=' transform) >>= λ s. add_transforms s transforms

-- `scale` and `rotate` have defaults.
abbrev pub new_spec : String → String → String → Position → OutputSpec
new_spec connector mode role (pos, rel) = record {
  connector = connector;
  mode = mode;
  primary = role == "primary";
  pos = pos;
  rel = rel;
  scale = "1x1";
  rotate = none;
}

abbrev pub spec_of : List String → Option OutputSpec
spec_of (connector ∷ mode ∷ role ∷ position ∷ transforms) =
    if is_empty connector || is_empty mode
    then none
    else (parse_position position >>= λ p.
        add_transforms (new_spec connector mode role p) transforms)
spec_of _ = none

unfoldable pub parse_spec : String → Option OutputSpec
parse_spec field = spec_of (split b':' field)

unfoldable pub parse_specs : List String → Option (List OutputSpec)
parse_specs [] = some []
parse_specs (s ∷ ss) = parse_spec s >>= λ spec. parse_specs ss >>= λ specs. some (spec ∷ specs)

abbrev pub with_specs : String → Option (List OutputSpec) → Option Profile
with_specs name none = none
with_specs name (some []) = none
with_specs name (some (spec ∷ specs)) = some (record { name = name; specs = spec ∷ specs })

unfoldable pub parse_profile : String → String → Option Profile
parse_profile name spec_string =
    with_specs name
      (parse_specs (filter (λ (s : String). not (is_empty s)) (split b';' spec_string)))

-- What follows the prefix, if the text starts with it.
unfoldable pub after_prefix : String → String → Option String
after_prefix String.[] s = some s
after_prefix (String.◌∷◌ c p) String.[] = none
after_prefix (String.◌∷◌ c p) (String.◌∷◌ d s) =
    let rest = after_prefix p s in if code c == code d then rest else none

abbrev pub parsed : String → Option String → Option Profile
parsed value none = none
parsed value (some name) = parse_profile name value

abbrev pub add : Option Profile → List Profile → List Profile
add none profiles = profiles
add (some prof) profiles = prof ∷ profiles

unfoldable pub parse_all_profiles : Dict String String → List Profile
parse_all_profiles [] = []
parse_all_profiles ((key, value) ∷ env) =
    add (parsed value (after_prefix "LAYOUT_" key)) (parse_all_profiles env)
