-- ===== src/Profiles.antt =====
-- xrandrw/profiles.py: the device profiles, the match against the connected set, and the argv.
pub mod Parse
use Prim.Native.String.{◌++◌ as ◌<>◌}
use xrandrw.Prelude.{
  String, Bool, ◌&&◌, Option, none, some, List, [], ◌∷◌, ◌++◌, all, filter, ◌==◌, contains,
  string_eq, if◌then◌else◌,
}
use xrandrw.Prelude.Sort.{sort_by}

pub record OutputSpec : Type 0 where
  pub connector : String
  pub mode : String
  pub primary : Bool
  -- `pos`, its two numbers as `str` shows them
  pub pos : Option (String × String)
  pub rel : Option (String × String)
  pub scale : String
  pub rotate : Option String

pub record Profile : Type 0 where
  pub name : String
  pub specs : List OutputSpec

-- `frozenset(s.connector for s in self.specs)`, as a list
abbrev pub connectors_of : List OutputSpec → List String
connectors_of [] = []
connectors_of (s ∷ specs) = s.connector ∷ connectors_of specs

abbrev pub is_subset : List String → List String → Bool
is_subset a b = all (λ x. contains x b) a

-- `a == b` of two sets
abbrev pub same_set : List String → List String → Bool
same_set a b = is_subset a b && is_subset b a

abbrev pub first : List Profile → Option Profile
first [] = none
first (p ∷ _) = some p

unfoldable pub match_profile : List String → List Profile → Option Profile
match_profile connected profiles = first (
    sort_by (λ (p : Profile). p.name)
      (filter (λ (p : Profile). same_set (connectors_of p.specs) connected) profiles))

abbrev mode_args : OutputSpec → List String
mode_args s = if s.mode == "auto" then "--auto" ∷ [] else "--mode" ∷ s.mode ∷ []

abbrev position_args : OutputSpec → List String
position_args s = elim s.pos [
  | some (x, y) ↦ "--pos" ∷ (x <> ("x" <> y)) ∷ []
  | none ↦ elim s.rel [ some (side, anchor) ↦ ("--" <> side) ∷ anchor ∷ [] | none ↦ [] ]
]

-- `if s.rotate:`, which an empty text fails
abbrev rotate_args : OutputSpec → List String
rotate_args s = elim s.rotate [ none ↦ [] | some r ↦ if r == "" then [] else "--rotate" ∷ r ∷ [] ]

abbrev spec_args : OutputSpec → List String
spec_args s =
    "--output"
    ∷ s.connector
    ∷ ((if s.primary then "--primary" ∷ [] else [])
        ++ (mode_args s ++ (position_args s ++ ("--scale" ∷ s.scale ∷ rotate_args s))))

abbrev all_args : List OutputSpec → List String
all_args [] = []
all_args (s ∷ specs) = spec_args s ++ all_args specs

unfoldable pub build_xrandr_argv : Profile → List String
build_xrandr_argv profile = "xrandr" ∷ all_args profile.specs
