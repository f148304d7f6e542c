-- ===== src/Windows/Capture/Connectors.antt =====
-- The connector and the EDID of a captured window (windows.py), read off the association and the outputs.
use xrandrw.Prelude.{
  String, ◌≡◌, refl, ◌∙◌, sym, ap, Option, none, some, ◌⊎◌, arith, inl, inr, Bool-cases,
  Option-cases, true, false, string_eq,
}
use xrandrw.Prelude.Dict.{Dict, lookup}
use xrandrw.Prelude.Text.{is_empty}
use xrandrw.Json.{Json, null, bool, int, str, arr, obj, Key, key, key_eq, ok, ok_inj}
use xrandrw.Outputs.{Output, Outputs}
use xrandrw.Windows.Capture.{connector_for, edid_for}

-- The monitor is unknown and there is no connector, or the association maps its number to this one.
abbrev pub IsConnector : Dict Key (Option String) → Json → Option String → Type 0
IsConnector mapping number c =
    ((lookup (key number) mapping ≡ none) × (c ≡ none)) ⊎ (lookup (key number) mapping ≡ some c)

-- A connector has the EDID of its output, and an EDID is that of the connector's output.
abbrev pub IsEdid : Outputs → Option String → Option String → Type 0
IsEdid outs none edid = edid ≡ none
IsEdid outs (some c) edid =
    ((o : Output) → is_empty c ≡ false → lookup c outs ≡ some o → edid ≡ o.edid_sha1)
    × ((h : String)
        → edid ≡ some h
        → (o : Output) × (lookup c outs ≡ some o) × (o.edid_sha1 ≡ some h))

flat-IsConnector :
    (mapping : Dict Key (Option String)) (number : Json) (c : Option String)
    → elim (lookup (key number) mapping) [ none ↦ none | some d ↦ d ] ≡ c
    → IsConnector mapping number c
flat-IsConnector mapping number c h = elim (Option-cases (lookup (key number) mapping)) [
  | inl e ↦ inl (e, sym (rw e at h))
  | inr (d, e) ↦ inr (e ∙ ap some (rw e at h))
]

pub connector_for-IsConnector :
    (mapping : Dict Key (Option String)) (number : Json) (c : Option String)
    → connector_for number mapping ≡ ok c
    → IsConnector mapping number c
connector_for-IsConnector mapping null c h = flat-IsConnector mapping null c (ok_inj h)
connector_for-IsConnector mapping (bool true) c h =
    flat-IsConnector mapping (bool true) c (ok_inj h)
connector_for-IsConnector mapping (bool false) c h =
    flat-IsConnector mapping (bool false) c (ok_inj h)
connector_for-IsConnector mapping (int z) c h = flat-IsConnector mapping (int z) c (ok_inj h)
connector_for-IsConnector mapping (str t) c h = flat-IsConnector mapping (str t) c (ok_inj h)
connector_for-IsConnector mapping (arr js) c h = ground arith
connector_for-IsConnector mapping (obj fs) c h = ground arith

pub edid_for-IsEdid : (outs : Outputs) (c : Option String) → IsEdid outs c (edid_for c outs)
edid_for-IsEdid outs none = refl
edid_for-IsEdid outs (some c) = (
  λ o full e. rw (full, e) refl,
  λ h found. elim (Bool-cases (is_empty c)) [
    | inl void ↦ ground (arith, rw void at found)
    | inr full ↦ elim (Option-cases (lookup c outs)) [
      | inl e ↦ ground (arith, rw e at (rw full at found))
      | inr (o, e) ↦ (o, e, rw e at (rw full at found))
    ]
  ],
)
