-- ===== src/Outputs/Resources.antt =====
-- xrandrw/xrandr.py: from the answers of the X server to the output map. The replies are parameters,
-- with only the fields that the code reads; a name is text already.
pub mod Sound
use xrandrw.Prelude.{
  ℕ, zero, suc, String, Bool, true, false, Option, none, some, List, [], ◌∷◌, ◌==◌, nat_eq,
  string_eq, ltb, not, contains, if◌then◌else◌,
}
use xrandrw.Prelude.Partial.{◌>>=◌}
use xrandrw.Prelude.Int.{ℤ}
use xrandrw.Prelude.Dict.{Dict, keys, lookup, insert, from_entries, insert_all}
use xrandrw.Outputs.{Mode, Output, Outputs}

pub record ModeInfo : Type 0 where
  pub id : ℕ
  pub width : ℤ
  pub height : ℤ

pub record CrtcInfo : Type 0 where
  pub x : ℤ
  pub y : ℤ
  pub width : ℤ
  pub height : ℤ
  pub current : ℕ

-- `_RROutput`
pub record OutputInfo : Type 0 where
  pub oid : ℕ
  pub name : String
  pub connection : ℕ
  pub crtc : ℕ
  pub modes : List ℕ
  pub num_preferred : ℕ

-- `randr.Connected`
abbrev pub rr_connected : ℕ
rr_connected = 0

-- `{m.id: m for m in modes}`
abbrev mode_entries : List ModeInfo → Dict ℕ ModeInfo
mode_entries [] = []
mode_entries (m ∷ ms) = (m.id, m) ∷ mode_entries ms

abbrev pub modemap : List ModeInfo → Dict ℕ ModeInfo
modemap ms = from_entries (mode_entries ms)

-- The loop over `enumerate(oi.modes)`, from the index on; a mode that is not known is left out.
unfoldable pub mode_tuples : Dict ℕ ModeInfo → ℕ → ℕ → ℕ → List ℕ → List Mode
mode_tuples known current num_preferred i [] = []
mode_tuples known current num_preferred i (mid ∷ mids) =
    let rest = mode_tuples known current num_preferred (suc i) mids in
    elim (lookup mid known) [
      | none ↦ rest
      | some m ↦
          record {
            width = m.width;
            height = m.height;
            is_current = mid == current;
            is_preferred = ltb i num_preferred;
          }
          ∷ rest
    ]

-- `crtc_infos.get(oi.crtc) if oi.crtc else None`
abbrev pub crtc_of : Dict ℕ CrtcInfo → OutputInfo → Option CrtcInfo
crtc_of crtcs oi = if oi.crtc == 0 then none else lookup oi.crtc crtcs

abbrev pub size_of : Option CrtcInfo → Option (ℤ × ℤ)
size_of none = none
size_of (some ci) = some (ci.width, ci.height)

abbrev pub origin_of : Option CrtcInfo → Option (ℤ × ℤ)
origin_of none = none
origin_of (some ci) = some (ci.x, ci.y)

abbrev current_of : Option CrtcInfo → ℕ
current_of none = 0
current_of (some ci) = ci.current

unfoldable pub to_output : Dict ℕ CrtcInfo → Dict ℕ ModeInfo → ℕ → OutputInfo → Output
unfolding mode_tuples
to_output crtcs known primary_id oi =
    let ci = crtc_of crtcs oi in
    record {
      name = oi.name;
      connected = oi.connection == rr_connected;
      primary = oi.oid == primary_id;
      current_mode = size_of ci;
      position = origin_of ci;
      modes = mode_tuples known (current_of ci) oi.num_preferred 0 oi.modes;
      edid_sha1 = none;
    }

unfoldable pub add_outputs :
    Dict ℕ CrtcInfo → Dict ℕ ModeInfo → ℕ → Outputs → List OutputInfo → Outputs
unfolding to_output
add_outputs crtcs known primary_id outs [] = outs
add_outputs crtcs known primary_id outs (oi ∷ infos) =
    add_outputs crtcs known primary_id (insert oi.name (to_output crtcs known primary_id oi) outs)
      infos

unfoldable pub randr_resources_to_outputs :
    List OutputInfo → Dict ℕ CrtcInfo → List ModeInfo → ℕ → Outputs
unfolding add_outputs
randr_resources_to_outputs infos crtcs modes primary_id =
    add_outputs crtcs (modemap modes) primary_id [] infos

-- What the X server answers in one read; `none` where a request raises.
pub record Server : Type 0 where
  pub output_ids : List ℕ
  pub modes : List ModeInfo
  pub primary_id : ℕ
  pub get_output_info : ℕ → Option OutputInfo
  pub get_crtc_info : ℕ → Option CrtcInfo

-- `if oi.crtc and oi.crtc not in crtc_infos`
unfoldable pub add_crtc : Server → ℕ → Dict ℕ CrtcInfo → Option (Dict ℕ CrtcInfo)
add_crtc s crtc crtcs =
    if crtc == 0
    then some crtcs
    else if contains crtc (keys crtcs)
    then some crtcs
    else (s.get_crtc_info crtc >>= λ ci. some (insert crtc ci crtcs))

-- The loop over `res.outputs`.
unfoldable pub gather :
    Server → List ℕ → Dict ℕ CrtcInfo → Option (List OutputInfo × Dict ℕ CrtcInfo)
unfolding add_crtc
gather s [] crtcs = some ([], crtcs)
gather s (oid ∷ oids) crtcs = do
  oi ← s.get_output_info oid
  more ← add_crtc s oi.crtc crtcs
  found ← gather s oids more
  some (oi ∷ found.0, found.1)

-- `RandRReader.read`, once the display is open
unfoldable pub read : Server → Option Outputs
unfolding gather randr_resources_to_outputs
read s = do
  found ← gather s s.output_ids []
  some (randr_resources_to_outputs found.0 found.1 s.modes s.primary_id)
