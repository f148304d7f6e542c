-- ===== src/Apply/Externals.antt =====
-- xrandrw/apply.py: the commands, and the placement of the external heads.
use xrandrw.Prelude.{
  ℕ, String, Option, none, some, List, [], ◌∷◌, ◌++◌, contains, filter, string_eq, if◌then◌else◌,
}
use Prim.Native.String.{◌++◌ as ◌<>◌}
use xrandrw.Prelude.Int.{ℤ, ltb_ℤ}
use xrandrw.Prelude.Dict.{Dict, lookup, insert}
use xrandrw.Prelude.Partial.{◌>>=◌}
use xrandrw.Prelude.Sort.{sort_by}
use xrandrw.Outputs.{Output, Outputs}
use xrandrw.Policy.{current_or_preferred_mode, Place, assign_placements}
use xrandrw.Profiles
use xrandrw.Profiles.{build_xrandr_argv}
use xrandrw.Store.{Profile, Store, no_fields, or_else, ensure_profile}

-- What a pass runs; the two backends run the same.
pub data Command : Type 0 where
  output_off : String → Command
  primary_scale : String → String → Command
  auto_pos : String → String → Option String → Command
  rotate_left : String → Command
  auto_primary : String → Command
  layout : Profiles.Profile → Command
  map_touch : ℕ → String → Command
  wallpaper : Command

-- The argv of the commands of xrandr; an anchor that is `None` would be refused.
unfoldable pub argv : Command → Option (List String)
argv (output_off c) = some ("xrandr" ∷ "--output" ∷ c ∷ "--off" ∷ [])
argv (primary_scale c scale) = some (
    "xrandr" ∷ "--output" ∷ c ∷ "--auto" ∷ "--scale" ∷ scale ∷ "--panning" ∷ "0x0" ∷ "--primary"
    ∷ [])
argv (auto_pos c rel none) = none
argv (auto_pos c rel (some anchor)) = some (
    "xrandr"
    ∷ "--output"
    ∷ c
    ∷ "--auto"
    ∷ "--scale"
    ∷ "1x1"
    ∷ "--panning"
    ∷ "0x0"
    ∷ ("--" <> rel)
    ∷ anchor
    ∷ [])
argv (rotate_left c) = some ("xrandr" ∷ "--output" ∷ c ∷ "--rotate" ∷ "left" ∷ [])
argv (auto_primary c) = some ("xrandr" ∷ "--output" ∷ c ∷ "--auto" ∷ "--primary" ∷ [])
argv (layout p) = some (build_xrandr_argv p)
argv (map_touch did output) = none
argv wallpaper = none

abbrev pub rotated : String → Option (ℤ × ℤ) → List Command
rotated c none = []
rotated c (some (w, h)) = if ltb_ℤ w h then rotate_left c ∷ [] else []

abbrev pub rotate_left_if_portrait : String → Output → List Command
rotate_left_if_portrait c o = rotated c (current_or_preferred_mode o)

-- `attach_stack` with the pids that are new, at the end
abbrev pub push_new : List String → List String → List String
push_new [] stack = stack
push_new (pid ∷ pids) stack =
    push_new pids (if contains pid stack then stack else stack ++ pid ∷ [])

abbrev pub reversed : List String → List String
reversed [] = []
reversed (x ∷ xs) = reversed xs ++ x ∷ []

-- `conns_by_pid`
abbrev pub or_nil : Option (List String) → List String
or_nil none = []
or_nil (some names) = names

abbrev pub group_by_pid : Dict String String → Dict String (List String) → Dict String (List String)
group_by_pid [] groups = groups
group_by_pid ((name, pid) ∷ pids) groups =
    group_by_pid pids (insert pid (or_nil (lookup pid groups) ++ name ∷ []) groups)

-- The connectors of the pids; a pid without connectors would be a `KeyError`.
abbrev pub conns_of : List String → Dict String (List String) → Option (List String)
conns_of [] groups = some []
conns_of (pid ∷ pids) groups = do
  names ← lookup pid groups
  more ← conns_of pids groups
  some (sort_by (λ (n : String). n) names ++ more)

-- `get_profile`, which stores an empty profile where there is none
abbrev pub get_profile : String → Store → Profile × Store
get_profile pid st = elim (lookup pid st.profiles) [
  | some p ↦ (p, st)
  | none ↦ (no_fields, record st { profiles = insert pid no_fields st.profiles })
]

abbrev pub or_default : Option String → String → String
or_default side default_side = elim (or_else side none) [ none ↦ default_side | some s ↦ s ]

-- `ordered`, with the profiles that the look-ups store
abbrev pub with_sides :
    List String → Dict String String → String → Store → Option (List (String × String) × Store)
with_sides [] pids default_side st = some ([], st)
with_sides (c ∷ conns) pids default_side st = do
  pid ← lookup c pids
  let (p, st') = get_profile pid st
  (more, st'') ← with_sides conns pids default_side st'
  some ((c, or_default p.preferred_side default_side) ∷ more, st'')

-- The last loop.
abbrev pub place_all : List Place → Outputs → Option (List Command)
place_all [] outs = some []
place_all (p ∷ ps) outs = do
  o ← lookup p.item outs
  more ← place_all ps outs
  some (auto_pos p.item p.side p.anchor ∷ (rotate_left_if_portrait p.item o ++ more))

module _ (new_profile_id : String → String) where
  -- `pid_by_output`
  unfoldable pub resolve_all :
      List Output → String → ℕ → Dict String String → Store → Option (Dict String String × Store)
  resolve_all [] default_side now pids st = some (pids, st)
  resolve_all (o ∷ exts) default_side now pids st = do
    (pid, st') ← ensure_profile new_profile_id o st default_side now
    resolve_all exts default_side now (insert o.name pid pids) st'

  -- `[pid_by_output[o.name] for o in exts]`
  abbrev pub pids_of : List Output → Dict String String → Option (List String)
  pids_of [] pids = some []
  pids_of (o ∷ exts) pids = do pid ← lookup o.name pids; more ← pids_of exts pids; some (pid ∷ more)

  -- The placement behind the profiles.
  unfoldable pub place_stack :
      Dict String String
      → List String
      → String
      → String
      → Outputs
      → Store
      → Option (Store × List Command)
  place_stack pids current primary default_side outs st = do
    conns ←
        conns_of (reversed (filter (λ pid. contains pid current) st.attach_stack))
          (group_by_pid pids [])
    (ordered, st') ← with_sides conns pids default_side st
    places ← assign_placements ordered primary "right-of"
    commands ← place_all places outs
    some (st', commands)

  -- `_place_externals`; `none` stands for an exception
  unfoldable pub place_externals :
      Store → List Output → String → String → Outputs → ℕ → Option (Store × List Command)
  unfolding resolve_all place_stack
  place_externals st exts primary default_side outs now = do
    (pids, st') ← resolve_all exts default_side now [] st
    current ← pids_of exts pids
    let stack = push_new current (filter (λ pid. contains pid current) st'.attach_stack)
    place_stack pids current primary default_side outs (record st' { attach_stack = stack })
