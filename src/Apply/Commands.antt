-- ===== src/Apply/Commands.antt =====
-- Which commands of apply.py are in order on the outputs, and the single steps of a pass.
use xrandrw.Prelude.{
  ℕ, String, Bool, true, false, not, ◌&&◌, ◌≡◌, refl, ◌∙◌, sym, ap, Option, none, some, List, [],
  ◌∷◌, ◌++◌, arith, ◌==◌, contains, filter, string_eq, eq_iff, Bool-cases, Option-cases, inl, inr,
  All, All-append, All-filter, filter-All, all,
}
use mathlib.Core.Path.{subst}
use xrandrw.Prelude.Int.{ℤ, ltb_ℤ}
use xrandrw.Prelude.Partial.{>>=-some}
use xrandrw.Prelude.Dict.{keys, lookup, DistinctKeys, lookup-cons}
use xrandrw.Prelude.Sort.{sort_by, All-sort_by}
use xrandrw.Outputs.{Output, Outputs, is_lit}
use xrandrw.Policy.{Place, is_internal_lcd, current_or_preferred_mode}
use xrandrw.Policy.Placement.{items_of}
use xrandrw.Profiles.{Profile, first, match_profile, connectors_of, same_set, is_subset}
use xrandrw.Touch.{resolve_touch_remaps, first_device}
use xrandrw.Apply.{
  scrub_stale, connected_of, names_of, primary_of, pick, scale_of, by_name, touches,
}
use xrandrw.Apply.Externals.{
  Command, output_off, primary_scale, auto_pos, rotate_left, auto_primary, layout, map_touch,
  wallpaper, place_all, rotate_left_if_portrait, rotated,
}

abbrev pub is_connected : Outputs → String → Bool
is_connected outs c = elim (lookup c outs) [ none ↦ false | some o ↦ o.connected ]

-- Disconnected, and still driven.
abbrev pub is_stale : Outputs → String → Bool
is_stale outs c = elim (lookup c outs) [ none ↦ false | some o ↦ not o.connected && is_lit o ]

-- A command that is in order on the outputs.
abbrev pub lawful : Outputs → Command → Bool
lawful outs (output_off c) = is_stale outs c
lawful outs (primary_scale c scale) = is_connected outs c
lawful outs (auto_pos c rel anchor) = is_connected outs c
lawful outs (rotate_left c) = is_connected outs c
lawful outs (auto_primary c) = is_connected outs c
lawful outs (layout p) = all (is_connected outs) (connectors_of p.specs)
lawful outs (map_touch did output) = is_connected outs output
lawful outs wallpaper = true

-- Each output is stored under its own name.
abbrev pub IsNamed : Outputs → Type 0
IsNamed [] = Unit
IsNamed ((n, o) ∷ outs) = (o.name ≡ n) × IsNamed outs

abbrev pub AllLawful : Outputs → List Command → Type 0
AllLawful outs = All (λ c. lawful outs c ≡ true)

abbrev pub AllConnected : Outputs → List String → Type 0
AllConnected outs = All (λ c. is_connected outs c ≡ true)

-- An entry is found under its key.
abbrev pub Holds : Outputs → Outputs → Type 0
Holds outs [] = Unit
Holds outs ((n, o) ∷ more) = (lookup n outs ≡ some o) × Holds outs more

pub Holds-cons :
    (n : String) (o : Output) (outs more : Outputs)
    → contains n (keys more) ≡ false
    → Holds outs more
    → Holds ((n, o) ∷ outs) more
Holds-cons n o outs [] h k = tt
Holds-cons n o outs ((m, p) ∷ more) h (a, k) = (
  ground (arith, lookup-cons m n o outs, eq_iff n m, eq_iff m n),
  Holds-cons n o outs more (ground arith) k,
)

pub Holds-self : (outs : Outputs) → DistinctKeys outs → Holds outs outs
Holds-self [] u = tt
Holds-self ((n, o) ∷ outs) (h, u) = (
  ground (arith, lookup-cons n n o outs, eq_iff n n),
  Holds-cons n o outs outs h (Holds-self outs u),
)

pub scrub_stale-lawful : (outs more : Outputs) → Holds outs more → AllLawful outs (scrub_stale more)
unfolding scrub_stale
scrub_stale-lawful outs [] k = tt
scrub_stale-lawful outs ((n, o) ∷ more) (a, k) = ground (arith, scrub_stale-lawful outs more k)

abbrev pub AllNames : Outputs → List Output → Type 0
AllNames outs = All (λ (o : Output). is_connected outs o.name ≡ true)

pub names-connected :
    (outs : Outputs) (os : List Output) → AllNames outs os → AllConnected outs (names_of os)
names-connected outs [] h = tt
names-connected outs (o ∷ os) (a, h) = (a, names-connected outs os h)

pub connected_of-AllNames :
    (outs more : Outputs) → IsNamed more → Holds outs more → AllNames outs (connected_of more)
connected_of-AllNames outs [] n k = tt
connected_of-AllNames outs ((m, o) ∷ more) (e, n) (a, k) =
    ground (arith, connected_of-AllNames outs more n k)

pub pick-lawful :
    (outs : Outputs) (width : ℤ) (panels whole : List Output) (o : Output) (c : Command)
    → AllNames outs panels
    → AllNames outs whole
    → pick width panels whole ≡ some (o, c)
    → lawful outs c ≡ true
pick-lawful outs width (panel ∷ panels) whole o c (a, h) k e =
    let same : primary_scale panel.name (scale_of width panel) ≡ c = ground arith in
    ap (lawful outs) (sym same) ∙ a
pick-lawful outs width [] (x ∷ whole) o c h (a, k) e =
    let same : auto_primary x.name ≡ c = ground arith in ap (lawful outs) (sym same) ∙ a
pick-lawful outs width [] [] o c h k e = ground arith

pub primary_of-lawful :
    (outs : Outputs) (width : ℤ) (connected : List Output) (o : Output) (c : Command)
    → AllNames outs connected
    → primary_of width connected ≡ some (o, c)
    → lawful outs c ≡ true
primary_of-lawful outs width connected o c h e =
    let P = λ (o : Output). is_connected outs o.name ≡ true in
    let internal = λ (o : Output). is_internal_lcd o.name in
    pick-lawful outs width (by_name (filter internal connected)) (by_name connected) o c
      (All-sort_by (λ (o : Output). o.name) P (filter internal connected)
        (All-filter P internal connected h))
      (All-sort_by (λ (o : Output). o.name) P connected h) e

pub rotated-lawful :
    (outs : Outputs) (c : String) (size : Option (ℤ × ℤ))
    → is_connected outs c ≡ true
    → AllLawful outs (rotated c size)
rotated-lawful outs c none h = tt
rotated-lawful outs c (some (w, t)) h = elim (Bool-cases (ltb_ℤ w t)) [
  | inl p ↦ rw p (h, tt)
  | inr p ↦ rw p tt
]

pub place_all-lawful :
    (outs : Outputs) (places : List Place) (commands : List Command)
    → AllConnected outs (items_of places)
    → place_all places outs ≡ some commands
    → AllLawful outs commands
place_all-lawful outs [] commands h e =
    let same : [] ≡ commands = ground arith in subst (AllLawful outs) same tt
place_all-lawful outs (p ∷ places) commands (a, h) e =
    let (o, _, e') = >>=-some (lookup p.item outs) _ commands e in
    let (more, m, e'') = >>=-some (place_all places outs) _ commands e' in
    let same : auto_pos p.item p.side p.anchor ∷ (rotate_left_if_portrait p.item o ++ more)
        ≡ commands =
      ground arith in
    subst (AllLawful outs) same (
      a,
      All-append _ (rotate_left_if_portrait p.item o) more
          (rotated-lawful outs p.item (current_or_preferred_mode o) a)
          (place_all-lawful outs places more h m),
    )

module _ (is_part_of : String → String → Bool) where
  pub All-contains :
      (outs : Outputs) (names : List String) (c : String)
      → AllConnected outs names
      → contains c names ≡ true
      → is_connected outs c ≡ true
  All-contains outs [] c h e = ground arith
  All-contains outs (n ∷ names) c (a, h) e = elim (Bool-cases (n == c)) [
    | inl p ↦ ap (is_connected outs) (sym ((eq_iff n c).0 p)) ∙ a
    | inr p ↦ All-contains outs names c h (ground arith)
  ]

  pub touches-lawful :
      (outs : Outputs) (mappings : List (String × String)) (devices : List (ℕ × String))
      → (names : List String) → AllConnected outs names
      → AllLawful outs (touches (resolve_touch_remaps is_part_of mappings devices names))
  unfolding resolve_touch_remaps
  touches-lawful outs [] devices names h = tt
  touches-lawful outs ((substr, output) ∷ mappings) devices names h =
      let rest = touches-lawful outs mappings devices names h in
      elim (Bool-cases (contains output names)) [
        | inl p ↦ rw p (elim (Option-cases (first_device is_part_of substr devices)) [
          | inl e ↦ rw e rest
          | inr (did, e) ↦ rw e (All-contains outs names output h p, rest)
        ])
        | inr p ↦ rw p rest
      ]

  pub layout-lawful :
      (outs : Outputs) (names cs : List String)
      → AllConnected outs names
      → is_subset cs names ≡ true
      → all (is_connected outs) cs ≡ true
  layout-lawful outs names [] h e = refl
  layout-lawful outs names (c ∷ cs) h e = ground (
    arith,
    All-contains outs names c h (ground arith),
    layout-lawful outs names cs h (ground arith),
  )

  pub first-All :
      (P : Profile → Type 0) (ps : List Profile) (p : Profile) → All P ps → first ps ≡ some p → P p
  first-All P [] p h e = ground arith
  first-All P (q ∷ ps) p (a, h) e = let same : q ≡ p = ground arith in subst P same a

  pub match_profile-set :
      (names : List String) (profiles : List Profile) (p : Profile)
      → match_profile names profiles ≡ some p
      → same_set (connectors_of p.specs) names ≡ true
  unfolding match_profile
  match_profile-set names profiles p h =
      let fits = λ (q : Profile). same_set (connectors_of q.specs) names in
      first-All (λ q. fits q ≡ true) (sort_by (λ (q : Profile). q.name) (filter fits profiles)) p
        (All-sort_by (λ (q : Profile). q.name) (λ q. fits q ≡ true) (filter fits profiles)
          (filter-All fits profiles))
        h
