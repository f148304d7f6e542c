-- ===== src/Tests/Preferring.antt =====
-- `set_pref` of cli.py on the desktop of a panel and a head.
use xrandrw.Prelude.{String, true, ◌≡◌, refl, Option, none, some, List, [], ◌∷◌, string_eq}
use xrandrw.Prelude.Dict.{lookup, insert, remove}
use xrandrw.Outputs.{Outputs}
use xrandrw.Store.{Profile, Store, ensure_profile}
use xrandrw.Store.Linked.{IsLinked}
use xrandrw.Apply.{connected_of}
use xrandrw.Cli.Pref.{Ended, saved, is_meant, set_side, prefer, prefer_one, set_pref}
use xrandrw.Cli.Pref.Sides.{Sided, side_of}
use xrandrw.Cli.Pref.Stored.{EndsWell, set_pref-EndsWell, set_pref-last}
use xrandrw.Tests.Desktop.{panel, head, docked}

abbrev profile : String → String → Profile
profile name side = record {
  names = some (name ∷ []);
  edid = none;
  preferred_side = some side;
  last_seen = some 5;
}

-- The head is known by its EDID, the panel is new.
abbrev store : Store
store = record {
  profiles = ("p1", profile "DP-2" "left-of") ∷ [];
  identity_map = ("edid:d15c", "p1") ∷ [];
  attach_stack = [];
}

store-IsLinked : IsLinked store
unfolding lookup
store-IsLinked = (refl, tt)

set_pref-EndsWell_example :
    EndsWell "HDMI-1" "above"
      (connected_of docked)
      (set_pref (λ s. s) "HDMI-1" "above" "right-of" 9 docked store)
set_pref-EndsWell_example =
    set_pref-EndsWell (λ s. s) "HDMI-1" "above" "right-of" 9 docked store store-IsLinked

meant : is_meant "edid:d15c" head ≡ true
unfolding is_meant
meant = refl

set_pref-last_example :
    (st : Store) × (matched : List String) × (set_pref
        (λ s. s)
        "edid:d15c"
        "above"
        "right-of"
        9
        docked
        store
      ≡ saved st matched)
    × Sided "above" head st
set_pref-last_example =
    set_pref-last (λ s. s) "edid:d15c" "above" "right-of" 9 docked store (panel ∷ []) head
      store-IsLinked refl refl meant

-- The panel's connector was the head's when the head was last seen: its profile is merged away after
-- the side was set in it, and the side is lost.
abbrev swapped : Outputs
swapped = ("HDMI-1", head) ∷ ("DP-1", record panel { name = "DP-1"; edid_sha1 = some "0b0b" }) ∷ []

abbrev before : Store
before = record {
  profiles = ("p1", profile "DP-1" "left-of") ∷ ("p2", profile "eDP-1" "below") ∷ [];
  identity_map = ("edid:d15c", "p1") ∷ ("conn:DP-1", "p1") ∷ ("edid:0b0b", "p2") ∷ [];
  attach_stack = [];
}

abbrev result : Ended
result = set_pref (λ s. s) "HDMI-1" "above" "right-of" 9 swapped before

abbrev matched_of : Ended → List String
matched_of (saved st matched) = matched
matched_of _ = []

abbrev sides_of : Ended → List (Option String)
sides_of (saved st matched) = side_of st (lookup "edid:d15c" st.identity_map) ∷ []
sides_of _ = []

lost : (matched_of result ≡ "p1" ∷ []) × (sides_of result ≡ some "below" ∷ [])
unfolding set_pref prefer prefer_one ensure_profile lookup is_meant set_side insert remove
lost = (refl, refl)
