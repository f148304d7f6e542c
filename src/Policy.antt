-- ===== src/Policy.antt =====
-- xrandrw/policy.py: which panel is internal, the mode that a panel runs at, and the side on which
-- each external head is placed.
pub mod Placement
pub mod Overlap
pub mod Preferred
use text.Mathlib.Text.{starts_with}
use xrandrw.Prelude.{
  ℕ, String, Bool, true, false, ◌||◌, Option, none, some, List, [], ◌∷◌, contains, string_eq,
  length, leb, if◌then◌else◌,
}
use xrandrw.Prelude.Int.{ℤ}
use xrandrw.Outputs.{Mode, Output}

abbrev pub sides : List String
sides = "right-of" ∷ "left-of" ∷ "above" ∷ "below" ∷ []

abbrev pub is_internal_lcd : String → Bool
is_internal_lcd name =
    starts_with name "eDP"
    || starts_with name "LVDS"
    || starts_with name "DSI"
    || starts_with name "DPI"

-- The size of the first mode with the flag.
abbrev first_mode : (Mode → Bool) → List Mode → Option (ℤ × ℤ)
first_mode flag [] = none
first_mode flag (m ∷ ms) =
    let rest = first_mode flag ms in if flag m then some (m.width, m.height) else rest

unfoldable pub current_or_preferred_mode : Output → Option (ℤ × ℤ)
current_or_preferred_mode o = elim (first_mode (λ m. m.is_current) o.modes) [
  | some size ↦ some size
  | none ↦ elim (first_mode (λ m. m.is_preferred) o.modes) [
    | some size ↦ some size
    | none ↦ o.current_mode
  ]
]

-- The item, the side, and the item that the side is of; `none` is `None`, which no placement has.
pub record Place : Type 0 where
  pub item : String
  pub side : String
  pub anchor : Option String

-- `next(s for s in SIDES if s not in occupied)`, which raises where there is none
abbrev pub first_free : List String → List String → Option String
first_free [] occupied = none
first_free (s ∷ more) occupied =
    let rest = first_free more occupied in if contains s occupied then rest else some s

abbrev pub wanted_side : String → String → String
wanted_side chain_side pref = if contains pref sides then pref else chain_side

abbrev pub side_for : String → String → List String → Option String
side_for chain_side pref occupied =
    let side = wanted_side chain_side pref in
    if contains side occupied then first_free sides occupied else some side

abbrev pub and_then : Place → Option (List Place) → Option (List Place)
and_then p none = none
and_then p (some ps) = some (p ∷ ps)

-- The loop, with the occupied sides and the last item. `none` stands for a `StopIteration`.
unfoldable pub place_from :
    String → String → List String → Option String → List (String × String) → Option (List Place)
place_from anchor chain_side occupied last [] = some []
place_from anchor chain_side occupied last ((item, pref) ∷ ordered) =
    let chained = place_from anchor chain_side occupied (some item) ordered in
    let placed =
      λ (side : String). place_from anchor chain_side (side ∷ occupied) (some item) ordered in
    if leb (length sides) (length occupied)
    then and_then (record { item = item; side = chain_side; anchor = last }) chained
    else elim (side_for chain_side pref occupied) [
      | none ↦ none
      | some side ↦
          and_then (record { item = item; side = side; anchor = some anchor }) (placed side)
    ]

unfoldable pub assign_placements : List (String × String) → String → String → Option (List Place)
unfolding place_from
assign_placements ordered anchor chain_side = place_from anchor chain_side [] none ordered
