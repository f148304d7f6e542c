-- ===== src/Windows.antt =====
-- xrandrw/windows.py: the association of dwm's monitors with outputs, by geometry.
pub mod Match
pub mod Process
pub mod Capture
use xrandrw.Prelude.{
  ℕ, String, Bool, true, false, not, ◌&&◌, Option, none, some, List, [], ◌∷◌, Eq, ◌==◌, filter,
  length, string_eq, if◌then◌else◌,
}
use xrandrw.Prelude.Int.{ℤ, int_eq}
use xrandrw.Prelude.Dict.{Dict, keys, lookup, insert}
use xrandrw.Json.{
  Json, null, bool, int, Key, nothing, number, text, container, key, key_eq, Result, ok,
  unavailable, raised, as_int, truthy, get, ◌>>=◌,
}
use xrandrw.Outputs.{Output, Outputs}
use xrandrw.Relocate.Focus.{get_field}

-- `_geometry_int`: an int that is no bool
abbrev pub geometry_int : Json → Option ℤ
geometry_int (int z) = some z
geometry_int _ = none

abbrev pub point_is : Option (ℤ × ℤ) → ℤ → ℤ → Bool
point_is none a b = false
point_is (some (x, y)) a b = x == a && y == b

-- `o.position == want_pos and o.current_mode == want_mode`
abbrev pub fits : ℤ → ℤ → ℤ → ℤ → Output → Bool
fits x y w h o = point_is o.position x y && point_is o.current_mode w h

-- Of several outputs that fit, those that are connected.
abbrev pub tie_break : Outputs → Outputs
tie_break [] = []
tie_break (a ∷ []) = a ∷ []
tie_break (a ∷ b ∷ more) = filter (λ (n, o). o.connected) (a ∷ b ∷ more)

-- `matches` after the tie-break
unfoldable pub candidates : ℤ → ℤ → ℤ → ℤ → Outputs → Outputs
candidates x y w h outs = tie_break (filter (λ (n, o). fits x y w h o) outs)

abbrev pub unique : Outputs → Option String
unique [] = none
unique ((n, o) ∷ []) = some n
unique ((n, o) ∷ _ ∷ _) = none

-- The connector of one monitor, by the four values of its geometry.
unfoldable pub connector_of : Outputs → Json → Json → Json → Json → Option String
unfolding candidates
connector_of outs x y w h = elim (geometry_int x) [
  | none ↦ none
  | some a ↦ elim (geometry_int y) [
    | none ↦ none
    | some b ↦ elim (geometry_int w) [
      | none ↦ none
      | some c ↦ elim (geometry_int h) [ none ↦ none | some d ↦ unique (candidates a b c d outs) ]
    ]
  ]
]

-- `mg.get(k)` of `mg = mon.get("monitor_geometry") or {}`
abbrev geometry_field : String → Json → Result Json
geometry_field k mon =
    let mg : Json = get_field "monitor_geometry" mon in if truthy mg then get k mg else ok null

-- A number that is a container is no key of a dict: a TypeError.
abbrev hashable : Json → Result Key
hashable j = elim (key j) [
  | nothing ↦ ok nothing
  | number z ↦ ok (number z)
  | text s ↦ ok (text s)
  | container ↦ raised
]

unfoldable pub match_from :
    Dict Key (Option String) → List Json → Outputs → Result (Dict Key (Option String))
match_from result [] outs = ok result
match_from result (mon ∷ mons) outs = do
  x ← geometry_field "x" mon
  y ← geometry_field "y" mon
  w ← geometry_field "width" mon
  h ← geometry_field "height" mon
  num ← hashable (get_field "num" mon)
  match_from (insert num (connector_of outs x y w h) result) mons outs

unfoldable pub match_dwm_monitor_to_output : List Json → Outputs → Result (Dict Key (Option String))
unfolding match_from
match_dwm_monitor_to_output mons outs = match_from [] mons outs
