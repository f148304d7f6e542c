-- ===== src/Touch.antt =====
-- xrandrw/touch.py: the text of TOUCH_MAP, and which input device is mapped onto which output. The
-- lower case of a text and the search in it are parameters, as one test of a name.
use xrandrw.Prelude.Dict.{Dict, lookup}
use xrandrw.Prelude.Text.{is_empty, strip, split, rpartition}
use xrandrw.Prelude.{
  ◌&&◌, ℕ, String, Bool, not, Option, none, some, List, [], ◌∷◌, contains, string_eq, if◌then◌else◌,
}

-- Both names stripped, where neither is empty then.
abbrev pub pair_of : Option (String × String) → List (String × String) → List (String × String)
pair_of none pairs = pairs
pair_of (some (name, output)) pairs =
    if not (is_empty (strip name)) && not (is_empty (strip output))
    then (strip name, strip output) ∷ pairs
    else pairs

unfoldable pub pairs_of : List String → List (String × String)
unfolding rpartition
pairs_of [] = []
pairs_of (chunk ∷ chunks) = pair_of (rpartition b':' (strip chunk)) (pairs_of chunks)

-- The name of a device may have a colon in it, so the last one counts.
unfoldable pub parse_touch_map : Dict String String → List (String × String)
unfolding pairs_of
parse_touch_map env = elim (lookup "TOUCH_MAP" env) [
  | none ↦ []
  | some value ↦ pairs_of (split b';' value)
]

module _ (is_part_of : String → String → Bool) where
  -- The first device whose name contains the text.
  abbrev pub first_device : String → List (ℕ × String) → Option ℕ
  first_device substr [] = none
  first_device substr ((did, name) ∷ devices) =
      let rest = first_device substr devices in if is_part_of substr name then some did else rest

  unfoldable pub resolve_touch_remaps :
      List (String × String) → List (ℕ × String) → List String → List (ℕ × String)
  resolve_touch_remaps [] devices connected = []
  resolve_touch_remaps ((substr, output) ∷ mappings) devices connected =
      let rest = resolve_touch_remaps mappings devices connected in
      if not (contains output connected)
      then rest
      else elim (first_device substr devices) [ none ↦ rest | some did ↦ (did, output) ∷ rest ]
