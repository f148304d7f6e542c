-- ===== src/Outputs/Edids.antt =====
-- xrandrw/xrandr.py: `read_edids`. The files under /sys, the EDID properties and SHA-1 are parameters.
pub mod First
use xrandrw.Prelude.{
  ℕ, String, Bool, true, false, not, ◌&&◌, Option, none, some, List, [], ◌∷◌, ◌==◌, string_eq, any,
  filter, if◌then◌else◌,
}
use xrandrw.Prelude.Dict.{Dict, keys, lookup, insert}
use xrandrw.Outputs.{Output, Outputs, is_some}

-- The bytes of an EDID.
abbrev pub Bytes : Type 0
Bytes = List ℕ

-- What the X server gives: no connection, an exception in between, or the outputs' ids by name.
pub data Native : Type 0 where
  no_display fails : Native
  answers : Dict String ℕ → Native

pub record Source : Type 0 where
  -- `edid_sysfs_read`
  pub sysfs : String → Option Bytes
  pub native : Native
  -- `read_edid_native`, `None` for an empty property
  pub property : ℕ → Option Bytes
  pub sha1 : Bytes → String

-- `edid_bytes_to_sha1`, of `None` as of no bytes
unfoldable pub edid_bytes_to_sha1 : Source → Option Bytes → Option String
edid_bytes_to_sha1 src none = none
edid_bytes_to_sha1 src (some []) = none
edid_bytes_to_sha1 src (some (b ∷ bs)) = some (src.sha1 (b ∷ bs))

-- `o.edid_sha1 = sha1` if there is one
abbrev pub set_edid : Option String → Output → Output
set_edid none o = o
set_edid (some sha1) o = record o { edid_sha1 = some sha1 }

-- `o.connected and not o.edid_sha1`
abbrev pub lacks_edid : Output → Bool
lacks_edid o = o.connected && (elim o.edid_sha1 [ none ↦ true | some sha1 ↦ sha1 == "" ])

unfoldable pub from_sysfs : Source → Outputs → Outputs
unfolding edid_bytes_to_sha1
from_sysfs src [] = []
from_sysfs src ((n, o) ∷ outs) =
    (n, if o.connected then set_edid (edid_bytes_to_sha1 src (src.sysfs n)) o else o)
    ∷ from_sysfs src outs

abbrev pub property_of : Source → Dict String ℕ → String → Option Bytes
property_of src ids n = elim (lookup n ids) [ none ↦ none | some oid ↦ src.property oid ]

unfoldable pub from_properties : Source → Dict String ℕ → Outputs → Outputs
unfolding edid_bytes_to_sha1
from_properties src ids [] = []
from_properties src ids ((n, o) ∷ outs) =
    (n, if lacks_edid o then set_edid (edid_bytes_to_sha1 src (property_of src ids n)) o else o)
    ∷ from_properties src ids outs

-- The outputs as `read_edids` leaves them, and whether it returns.
unfoldable pub from_native : Source → Native → Outputs → Outputs × Bool
unfolding from_properties
from_native src no_display outs = (outs, true)
from_native src fails outs = (outs, false)
from_native src (answers ids) outs = (from_properties src ids outs, true)

unfoldable pub read_edids : Source → Outputs → Outputs × Bool
unfolding from_sysfs from_native
read_edids src outs =
    let outs' = from_sysfs src outs in
    let asked = from_native src src.native outs' in
    if any (λ (n, o). lacks_edid o) outs' then asked else (outs', true)
