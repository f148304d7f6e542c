-- ===== src/Ipc.antt =====
-- xrandrw/dwmipc.py: the messages, the shape validators and the wire format.
pub mod Wire
pub mod Exchange
use xrandrw.Prelude.{
  String, Bool, true, false, not, ◌&&◌, Option, none, some, List, [], ◌∷◌, all, ltb, if◌then◌else◌,
}
use xrandrw.Prelude.Int.{ℤ}
use xrandrw.Json.{
  Json, arr, obj, nil, cons, Items, Fields, items, member, Result, ok, unavailable, str,
}

-- The requests that the program sends: `GET_MONITORS`, `GET_DWM_CLIENT`, `RUN_COMMAND`.
pub data Message : Type 0 where
  get_monitors : Message
  get_dwm_client : ℤ → Message
  run_command : String → List ℤ → Message

-- `key in d`
abbrev pub has_key : Fields → String → Bool
has_key fs k = elim (member k fs) [ none ↦ false | some _ ↦ true ]

abbrev pub has_keys : List String → Json → Bool
has_keys ks (obj fs) = all (has_key fs) ks
has_keys ks _ = false

unfoldable pub require_list_of_dicts : List String → Json → Result (List Json)
require_list_of_dicts required (arr (cons j js)) =
    let l : List Json = j ∷ items js in if all (has_keys required) l then ok l else unavailable
require_list_of_dicts required _ = unavailable

unfoldable pub require_dict : List String → Json → Result Json
require_dict required j = if has_keys required j then ok j else unavailable

unfoldable pub validate_monitors : Json → Result (List Json)
unfolding require_list_of_dicts
validate_monitors = require_list_of_dicts ("num" ∷ "monitor_geometry" ∷ [])

unfoldable pub validate_client : Json → Result Json
unfolding require_dict
validate_client = require_dict ("name" ∷ "tags" ∷ "geometry" ∷ "states" ∷ [])
