-- ===== src/Outputs.antt =====
-- xrandrw/xrandr.py: the output map, liveness, and the two conditions that the watch loop reads.
pub mod Resources
pub mod Edids
use xrandrw.Prelude.{
  String, Bool, true, false, not, ◌&&◌, ◌||◌, Option, none, some, List, [], ◌∷◌, filter,
  if◌then◌else◌,
}
use xrandrw.Prelude.Int.{ℤ}
use xrandrw.Prelude.Dict.{Dict, keys}
use xrandrw.Prelude.Sort.{sort_by}

-- A mode of `Output.modes`: width, height and the flags. The rate is not modelled, which is a
-- float that only the log shows.
pub record Mode : Type 0 where
  pub width : ℤ
  pub height : ℤ
  pub is_current : Bool
  pub is_preferred : Bool

pub record Output : Type 0 where
  pub name : String
  pub connected : Bool
  pub primary : Bool
  pub current_mode : Option (ℤ × ℤ)
  pub position : Option (ℤ × ℤ)
  pub modes : List Mode
  pub edid_sha1 : Option String

abbrev pub is_some {ℓ} : {A : Type ℓ} → Option A → Bool
is_some none = false
is_some (some _) = true

unfoldable pub is_lit : Output → Bool
is_lit o = is_some o.current_mode && is_some o.position

abbrev pub Outputs : Type 0
Outputs = Dict String Output

unfoldable pub unhealed_outputs : Outputs → List String
unfolding is_lit
unhealed_outputs outs =
    sort_by (λ (n : String). n) (keys (filter (λ (n, o). o.connected && not (is_lit o)) outs))

-- `f"{o.name}|{o.connected}|{o.current_mode}"`, before it is shown
abbrev pub Part : Type 0
Part = String × Bool × Option (ℤ × ℤ)

abbrev parts_of : Outputs → List Part
parts_of [] = []
parts_of ((_, o) ∷ outs) =
    let rest = parts_of outs in
    if o.connected || is_lit o then (o.name, o.connected, o.current_mode) ∷ rest else rest

-- The text that is hashed shows the parts line by line; the digest of the parts is a parameter.
unfoldable pub topology_hash_from_outputs : (List Part → String) → Outputs → String
topology_hash_from_outputs digest outs =
    digest (parts_of (sort_by (λ (e : String × Output). e.0) outs))

-- `{n for n, o in outs.items() if o.connected}`
abbrev pub connected_names : Outputs → List String
connected_names outs = keys (filter (λ (n, o). o.connected) outs)
